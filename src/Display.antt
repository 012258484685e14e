-- ===== src/Display.antt =====
-- The data of the display part of the WSI layer: `struct vk_display`, `vk_display_plane`,
-- `vk_display_mode` and `vk_physical_device` of src/wsi/wsi.h, and the enumerations of
-- src/wsi/display.c over them. A pointer to an element of an array is the number of the block of
-- memory with the index; block 0 is `NULL`. Displays and planes go by their index in the device.
pub mod Listing
pub mod Queries
pub mod Modes
pub mod Setup
pub mod Ready
pub mod Planes
pub mod Adding
pub mod Outputs
pub mod Overflow
pub mod Capabilities
pub mod Samples
mod Tests
use vulkan_wsi_tizen.Common.{
  ℕ, ◌+◌, ◌<◌, Bool, true, false, Option, none, some, List, [], ◌∷◌, get_elem?, length, min, ltb,
  if◌then◌else◌, ◌>>=◌,
}
use vulkan_wsi_tizen.Enumerate.{Answer, Query, copy_loop}
use vulkan_wsi_tizen.Enumerate.Results.{VkResult, success, incomplete}

abbrev pub vk_max_display_count : ℕ
vk_max_display_count = 16

abbrev pub vk_max_plane_count : ℕ
vk_max_plane_count = 64

-- A pointer into an array; as a `VkDisplayModeKHR` it is the handle of a mode.
pub record Pointer : Type 0 where
  pub block : ℕ
  pub index : ℕ

pub record Extent : Type 0 where
  pub width : ℕ
  pub height : ℕ

-- `VkDisplayModeParametersKHR`
pub record ModeParameters : Type 0 where
  pub visible_region : Extent
  pub refresh_rate : ℕ

-- `VkDisplayModePropertiesKHR`
pub record ModeProperties : Type 0 where
  pub display_mode : Pointer
  pub parameters : ModeParameters

-- `tdm_mode` is the index of the mode in the array of TDM, `none` where nothing was stored.
pub record DisplayMode : Type 0 where
  pub display : Option ℕ
  pub prop : ModeProperties
  pub tdm_mode : Option ℕ

-- `VkDisplayPropertiesKHR`; the name is the number of a string.
pub record DisplayProperties : Type 0 where
  pub display : ℕ
  pub display_name : ℕ
  pub physical_dimensions : Extent
  pub physical_resolution : Extent
  pub supported_transforms : ℕ
  pub plane_reorder_possible : Bool
  pub persistent_content : Bool

-- An array on the heap: its block, and its elements.
pub record ModeArray : Type 0 where
  pub block : ℕ
  pub cells : List DisplayMode

pub record Display : Type 0 where
  pub has_pdev : Bool
  pub tdm_output : ℕ
  pub prop : DisplayProperties
  pub built_in_mode_count : ℕ
  pub built_in_modes : ModeArray
  pub custom_mode_count : ℕ
  pub custom_modes : ModeArray

-- `VkDisplayPlanePropertiesKHR`
pub record PlaneProperties : Type 0 where
  pub current_display : ℕ
  pub current_stack_index : ℕ

pub record DisplayPlane : Type 0 where
  pub has_pdev : Bool
  pub tdm_layer : Option ℕ
  pub prop : PlaneProperties
  pub supported_display_count : ℕ
  pub supported_displays : List ℕ
  pub current_display : ℕ
  pub current_stack_index : ℕ

-- `struct vk_physical_device`; `none` for the connection to TDM is `NULL`.
pub record PhysicalDevice : Type 0 where
  pub tdm_display : Option ℕ
  pub display_count : ℕ
  pub displays : List Display
  pub plane_count : ℕ
  pub planes : List DisplayPlane

-- The common shape: the count alone, or as many elements as fit, by the loop over the array.
unfoldable pub vk_get_physical_device_display_properties_khr :
    PhysicalDevice → Query DisplayProperties
vk_get_physical_device_display_properties_khr phydev prop_count none =
    some (success, phydev.display_count, none)
vk_get_physical_device_display_properties_khr phydev prop_count (some props) =
    let n = min prop_count phydev.display_count in
    copy_loop (λ (d : Display). d.prop) n 0 phydev.displays props >>= λ props.
    some ((if ltb n phydev.display_count then incomplete else success), n, some props)

unfoldable pub vk_get_physical_device_display_plane_properties_khr :
    PhysicalDevice → Query PlaneProperties
vk_get_physical_device_display_plane_properties_khr phydev prop_count none =
    some (success, phydev.plane_count, none)
vk_get_physical_device_display_plane_properties_khr phydev prop_count (some props) =
    let n = min prop_count phydev.plane_count in
    copy_loop (λ (p : DisplayPlane). p.prop) n 0 phydev.planes props >>= λ props.
    some ((if ltb n phydev.plane_count then incomplete else success), n, some props)

-- `&phydev->planes[plane_index]` is read without a test of the index.
unfoldable pub vk_get_display_plane_supported_displays_khr : PhysicalDevice → ℕ → Query ℕ
vk_get_display_plane_supported_displays_khr phydev plane_index display_count none =
    get_elem? phydev.planes plane_index >>= λ plane.
    some (success, plane.supported_display_count, none)
vk_get_display_plane_supported_displays_khr phydev plane_index display_count (some displays) =
    get_elem? phydev.planes plane_index >>= λ plane.
    let n = min display_count plane.supported_display_count in
    copy_loop (λ (d : ℕ). d) n 0 plane.supported_displays displays >>= λ displays.
    some ((if ltb n plane.supported_display_count then incomplete else success), n, some displays)

unfoldable pub vk_get_display_mode_properties_khr : Display → Query ModeProperties
vk_get_display_mode_properties_khr dpy prop_count none =
    some (success, dpy.built_in_mode_count, none)
vk_get_display_mode_properties_khr dpy prop_count (some props) =
    let n = min prop_count dpy.built_in_mode_count in
    copy_loop (λ (m : DisplayMode). m.prop) n 0 dpy.built_in_modes.cells props >>= λ props.
    some ((if ltb n dpy.built_in_mode_count then incomplete else success), n, some props)
