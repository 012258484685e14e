-- ===== src/Enumerate/Results.antt =====
-- The codes of `VkResult` (include/vulkan/vulkan.h) that src/wsi returns.
use vulkan_wsi_tizen.Common.{Bool, true, false}

pub data VkResult : Type 0 where
  success incomplete timeout : VkResult
  error_out_of_host_memory error_out_of_device_memory : VkResult
  error_device_lost error_surface_lost_khr error_extension_not_present : VkResult

abbrev pub is_success : VkResult → Bool
is_success success = true
is_success _ = false
