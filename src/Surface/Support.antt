-- ===== src/Surface/Support.antt =====
-- The two support queries of src/wsi/surface.c and the surface over a queue of TBM.
use vulkan_wsi_tizen.Common.{ℕ, Bool, true, Option, none, some, if◌then◌else◌}
use vulkan_wsi_tizen.Enumerate.Results.{VkResult, success, error_out_of_host_memory}
use vulkan_wsi_tizen.Surface.{Surface, tbm_queue}

unfoldable vk_get_physical_device_wayland_presentation_support_khr :
    (queue_family_index : ℕ) (wl_display : ℕ) → Bool
vk_get_physical_device_wayland_presentation_support_khr queue_family_index wl_display = true

-- The result and `*supported`.
unfoldable vk_get_physical_device_surface_support_khr :
    (queue_family_index : ℕ) → Surface → VkResult × Bool
vk_get_physical_device_surface_support_khr queue_family_index surface = (success, true)

-- The result, and `*surface` if it is set.
unfoldable vk_create_tbm_queue_surface_khr :
    (has_memory : Bool) (bufmgr queue : ℕ) → VkResult × Option Surface
vk_create_tbm_queue_surface_khr has_memory bufmgr queue =
    if has_memory
    then (success, some (tbm_queue bufmgr queue))
    else (error_out_of_host_memory, none)
