-- ===== src/Surface/CapabilityQuery.antt =====
-- The capabilities of a surface in src/wsi/surface.c. The numbers of the flags are those of
-- include/vulkan/vulkan.h; sizes that TDM gives are not negative.
use vulkan_wsi_tizen.Common.{ℕ, ◌-◌, ◌^◌, Option, none, some, List, [], ◌++◌, get_elem?, ◌>>=◌}
use vulkan_wsi_tizen.Enumerate.Results.{
  VkResult, success, error_device_lost, error_extension_not_present,
}
use vulkan_wsi_tizen.TplBackend.{TplAnswers, Call, vk_get_tpl_display, unreference_display}
use vulkan_wsi_tizen.Display.{Extent, PhysicalDevice}
use vulkan_wsi_tizen.Display.Setup.{Tdm, AvailableSize}
use vulkan_wsi_tizen.Surface.{Surface, SurfaceDisplay, wayland, tbm_queue, display, other_platform}

-- `VkSurfaceCapabilitiesKHR`
pub record SurfaceCapabilities : Type 0 where
  pub min_image_count : ℕ
  pub max_image_count : ℕ
  pub current_extent : Extent
  pub min_image_extent : Extent
  pub max_image_extent : Extent
  pub max_image_array_layers : ℕ
  pub supported_transforms : ℕ
  pub current_transform : ℕ
  pub supported_composite_alpha : ℕ
  pub supported_usage_flags : ℕ

abbrev pub square : ℕ → Extent
square n = record { width = n; height = n }

-- What a call leaves: its result, the structure of the caller, and the calls of TPL that take or give
-- back a display.
abbrev pub Answered : Type 0
Answered = VkResult × SurfaceCapabilities × List Call

unfoldable pub store_tpl_capabilities : (least most : ℕ) → SurfaceCapabilities
store_tpl_capabilities least most = record {
  min_image_count = least;
  max_image_count = most;
  current_extent = square (2 ^ 32 - 1);
  min_image_extent = square 1;
  max_image_extent = square 4096;
  max_image_array_layers = 1;
  supported_transforms = 1;
  current_transform = 1;
  supported_composite_alpha = 3;
  supported_usage_flags = 23;
}

-- `buffer_count` is the query of TPL for a display and the native window of a surface.
unfoldable pub tpl_get_surface_capabilities :
    TplAnswers
    → (buffer_count : ℕ → Surface → Option (ℕ × ℕ)) → Surface
    → SurfaceCapabilities
    → Answered
tpl_get_surface_capabilities a buffer_count sfc caps =
    let (dpy, calls) = vk_get_tpl_display a sfc in
    elim dpy [
      | none ↦ (error_device_lost, caps, calls)
      | some d ↦ elim (buffer_count d sfc) [
        | none ↦ (error_device_lost, caps, calls)
        | some (least, most) ↦
            (success, store_tpl_capabilities least most, calls ++ unreference_display (some d))
      ]
    ]

unfoldable pub store_tdm_capabilities :
    SurfaceDisplay → Option AvailableSize → SurfaceCapabilities → Answered
store_tdm_capabilities sfc none caps = (error_device_lost, caps, [])
store_tdm_capabilities sfc (some size) caps = (
  success,
  record {
    min_image_count = 2;
    max_image_count = 3;
    current_extent = sfc.image_extent;
    min_image_extent = size.least;
    max_image_extent = size.most;
    max_image_array_layers = 1;
    supported_transforms = 1;
    current_transform = 1;
    supported_composite_alpha = 3;
    supported_usage_flags = 23;
  },
  [],
)

-- `none` is a read outside the array of displays.
unfoldable pub tdm_get_surface_capabilities :
    Tdm → PhysicalDevice → SurfaceDisplay → SurfaceCapabilities → Option Answered
tdm_get_surface_capabilities tdm pdev sfc caps = elim (sfc.display_mode) [
  | none ↦ some (error_device_lost, caps, [])
  | some mode ↦ elim (mode.display) [
    | none ↦ some (error_device_lost, caps, [])
    | some index ↦ get_elem? pdev.displays index >>= λ disp.
        some (store_tdm_capabilities sfc (tdm.get_available_size disp.tdm_output) caps)
  ]
]

unfoldable pub vk_get_physical_device_surface_capabilities_khr :
    TplAnswers
    → (buffer_count : ℕ → Surface → Option (ℕ × ℕ)) → Tdm
    → PhysicalDevice
    → Surface
    → SurfaceCapabilities
    → Option Answered
vk_get_physical_device_surface_capabilities_khr a buffer_count tdm pdev (tbm_queue b q) caps =
    some (tpl_get_surface_capabilities a buffer_count (tbm_queue b q) caps)
vk_get_physical_device_surface_capabilities_khr a buffer_count tdm pdev (wayland d s) caps =
    some (tpl_get_surface_capabilities a buffer_count (wayland d s) caps)
vk_get_physical_device_surface_capabilities_khr a buffer_count tdm pdev (display sfc) caps =
    tdm_get_surface_capabilities tdm pdev sfc caps
vk_get_physical_device_surface_capabilities_khr a buffer_count tdm pdev other_platform caps =
    some (error_extension_not_present, caps, [])
