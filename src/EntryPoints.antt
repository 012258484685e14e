-- ===== src/EntryPoints.antt =====
-- src/wsi/entry-points.c: the table of the functions of the layer, and the three functions that look a
-- name up. A handle and an address of the driver are numbers, and `NULL` is 0.
pub mod Table
pub mod Dispatch
mod Tests
use vulkan_wsi_tizen.Common.{
  ℕ, Bool, true, false, ◌&&◌, not, Option, none, some, List, [], ◌∷◌, ◌==◌, if◌then◌else◌, ◌>>=◌,
}
use Prim.Native.String.{String}
use text.Mathlib.Text.{◌==◌ as str_eq}

-- The functions of the layer that have an entry.
pub data VkFunc : Type 0 where
  vk_enumerate_instance_extension_properties_func : VkFunc
  vk_enumerate_device_extension_properties_func : VkFunc
  vk_get_physical_device_surface_support_khr_func : VkFunc
  vk_get_physical_device_surface_capabilities_khr_func : VkFunc
  vk_get_physical_device_surface_formats_khr_func : VkFunc
  vk_get_physical_device_surface_present_modes_khr_func : VkFunc
  vk_create_swapchain_khr_func : VkFunc
  vk_destroy_swapchain_khr_func : VkFunc
  vk_get_swapchain_images_khr_func : VkFunc
  vk_acquire_next_image_khr_func : VkFunc
  vk_queue_present_khr_func : VkFunc
  vk_get_physical_device_display_properties_khr_func : VkFunc
  vk_get_physical_device_display_plane_properties_khr_func : VkFunc
  vk_get_display_plane_supported_displays_khr_func : VkFunc
  vk_get_display_mode_properties_khr_func : VkFunc
  vk_create_display_mode_khr_func : VkFunc
  vk_get_display_plane_capabilities_khr_func : VkFunc
  vk_create_shared_swapchains_khr_func : VkFunc
  vk_get_physical_device_wayland_presentation_support_khr_func : VkFunc
  vk_get_instance_proc_addr_func : VkFunc
  vk_get_device_proc_addr_func : VkFunc
  vk_create_tbm_queue_surface_khr_func : VkFunc

pub data VkFuncType : Type 0 where
  func_type_global func_type_instance func_type_device : VkFuncType

pub record VkEntry : Type 0 where
  pub name : String
  pub func : VkFunc
  pub type : VkFuncType

abbrev entry : String → VkFunc → VkFuncType → VkEntry
entry name func type = record { name = name; func = func; type = type }

unfoldable pub entry_points : List VkEntry
entry_points =
    entry "vkEnumerateInstanceExtensionProperties" vk_enumerate_instance_extension_properties_func
      func_type_global
    ∷ entry "vkEnumerateDeviceExtensionProperties" vk_enumerate_device_extension_properties_func
        func_type_instance
    ∷ entry "vkGetPhysicalDeviceSurfaceSupportKHR" vk_get_physical_device_surface_support_khr_func
        func_type_instance
    ∷ entry "vkGetPhysicalDeviceSurfaceCapabilitiesKHR"
        vk_get_physical_device_surface_capabilities_khr_func func_type_instance
    ∷ entry "vkGetPhysicalDeviceSurfaceFormatsKHR" vk_get_physical_device_surface_formats_khr_func
        func_type_instance
    ∷ entry "vkGetPhysicalDeviceSurfacePresentModesKHR"
        vk_get_physical_device_surface_present_modes_khr_func func_type_instance
    ∷ entry "vkCreateSwapchainKHR" vk_create_swapchain_khr_func func_type_device
    ∷ entry "vkDestroySwapchainKHR" vk_destroy_swapchain_khr_func func_type_device
    ∷ entry "vkGetSwapchainImagesKHR" vk_get_swapchain_images_khr_func func_type_device
    ∷ entry "vkAcquireNextImageKHR" vk_acquire_next_image_khr_func func_type_device
    ∷ entry "vkQueuePresentKHR" vk_queue_present_khr_func func_type_device
    ∷ entry "vkGetPhysicalDeviceDisplayPropertiesKHR"
        vk_get_physical_device_display_properties_khr_func func_type_instance
    ∷ entry "vkGetPhysicalDeviceDisplayPlanePropertiesKHR"
        vk_get_physical_device_display_plane_properties_khr_func func_type_instance
    ∷ entry "vkGetDisplayPlaneSupportedDisplaysKHR" vk_get_display_plane_supported_displays_khr_func
        func_type_instance
    ∷ entry "vkGetDisplayModePropertiesKHR" vk_get_display_mode_properties_khr_func
        func_type_instance
    ∷ entry "vkCreateDisplayModeKHR" vk_create_display_mode_khr_func func_type_instance
    ∷ entry "vkGetDisplayPlaneCapabilitiesKHR" vk_get_display_plane_capabilities_khr_func
        func_type_instance
    ∷ entry "vkCreateSharedSwapchainsKHR" vk_create_shared_swapchains_khr_func func_type_device
    ∷ entry "vkGetPhysicalDeviceWaylandPresentationSupportKHR"
        vk_get_physical_device_wayland_presentation_support_khr_func func_type_instance
    ∷ entry "vkGetInstanceProcAddr" vk_get_instance_proc_addr_func func_type_instance
    ∷ entry "vkGetDeviceProcAddr" vk_get_device_proc_addr_func func_type_device
    ∷ entry "vkCreateTBMQueueSurfaceKHR" vk_create_tbm_queue_surface_khr_func func_type_instance
    ∷ []

-- The loop of `get_entry_point`.
unfoldable pub find_entry : String → List VkEntry → Option VkEntry
find_entry name [] = none
find_entry name (e ∷ entries) = if str_eq e.name name then some e else find_entry name entries

unfoldable pub get_entry_point : String → Option VkEntry
get_entry_point name = find_entry name entry_points

-- What a name resolves to: a function of the layer, or an address that the driver gave.
pub data Proc : Type 0 where
  layer : VkFunc → Proc
  address : ℕ → Proc

-- `get_proc_addr` of `vk_icd_t`, and a call of the function at an address that the driver gave.
pub record Icd : Type 0 where
  pub get_proc_addr : ℕ → String → ℕ
  pub invoke : ℕ → ℕ → String → ℕ

-- A call through a pointer; `NULL` is a fault.
unfoldable pub call : Icd → ℕ → ℕ → String → Option ℕ
call icd f handle name = if f == 0 then none else some (icd.invoke f handle name)

abbrev pub is_global : VkFuncType → Bool
is_global func_type_global = true
is_global _ = false

abbrev pub is_device : VkFuncType → Bool
is_device func_type_device = true
is_device _ = false

abbrev pub is_get_instance_proc_addr : VkFunc → Bool
is_get_instance_proc_addr vk_get_instance_proc_addr_func = true
is_get_instance_proc_addr _ = false

abbrev pub is_get_device_proc_addr : VkFunc → Bool
is_get_device_proc_addr vk_get_device_proc_addr_func = true
is_get_device_proc_addr _ = false

-- The tests on an entry that was found.
unfoldable pub instance_proc : ℕ → VkEntry → Proc
instance_proc instance_handle e =
    if instance_handle == 0 && is_global e.type
    then layer e.func
    else if not (instance_handle == 0) && not (is_global e.type)
    then layer e.func
    else if is_get_instance_proc_addr e.func
    then layer e.func
    else if is_get_device_proc_addr e.func
    then layer e.func
    else address 0

unfoldable pub vk_get_instance_proc_addr : Icd → ℕ → String → Option Proc
vk_get_instance_proc_addr icd instance_handle name = elim (get_entry_point name) [
  | some e ↦ some (instance_proc instance_handle e)
  | none ↦
      let gipa = icd.get_proc_addr instance_handle "vkGetInstanceProcAddr" in
      call icd gipa instance_handle name >>= λ f. some (address f)
]

unfoldable pub device_proc : VkEntry → Proc
device_proc e = if is_device e.type then layer e.func else address 0

unfoldable pub vk_get_device_proc_addr : Icd → ℕ → String → Option Proc
vk_get_device_proc_addr icd device name =
    if device == 0 then some (address 0) else elim (get_entry_point name) [
      | some e ↦ some (device_proc e)
      | none ↦
          let gdpa = icd.get_proc_addr 0 "vkGetDeviceProcAddr" in
          call icd gdpa device "vkGetDeviceProcAddr" >>= λ gdpa'.
          call icd gdpa' device name >>= λ f. some (address f)
    ]

unfoldable pub vk_icd_get_instance_proc_addr : Icd → ℕ → String → Proc
vk_icd_get_instance_proc_addr icd instance_handle name = elim (get_entry_point name) [
  | some e ↦ layer e.func
  | none ↦ address (icd.get_proc_addr instance_handle name)
]
