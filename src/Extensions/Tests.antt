-- ===== src/Extensions/Tests.antt =====
-- The enumerations of src/wsi/extensions.c with a driver that has two device extensions.
use vulkan_wsi_tizen.Common.{
  ℕ, refl, Option, none, some, List, [], ◌∷◌, arith, take, min, ltb, replicate, if◌then◌else◌,
  ◌>>=◌,
}
use vulkan_wsi_tizen.Enumerate.{Query, memcpy}
use vulkan_wsi_tizen.Enumerate.Results.{success, incomplete}
use vulkan_wsi_tizen.Enumerate.Copy.{Enumerates, memcpy-Enumerates}
use vulkan_wsi_tizen.Extensions.{ExtensionProperties, vk_enumerate_device_extension_properties}
use vulkan_wsi_tizen.Extensions.Merge.{all_extensions}
use vulkan_wsi_tizen.Extensions.Device.{device_extensions-Enumerates}

abbrev own : List ExtensionProperties
own =
    record { extension_name = "VK_KHR_maintenance1"; spec_version = 1 }
    ∷ record { extension_name = "VK_KHR_swapchain"; spec_version = 60 }
    ∷ []

abbrev enum_dev_exts : Query ExtensionProperties
enum_dev_exts n none = some (success, 2, none)
enum_dev_exts n (some dst) = memcpy (min n 2) own dst >>= λ dst'.
    some ((if ltb (min n 2) 2 then incomplete else success), min n 2, some dst')

driver-Enumerates : Enumerates (take 2 own) enum_dev_exts
driver-Enumerates = memcpy-Enumerates 2 own enum_dev_exts (omega arith) (λ n. refl) (λ n dst. refl)

abbrev blank : ExtensionProperties
blank = record { extension_name = ""; spec_version = 0 }

abbrev vk_alloc : ℕ → Option (List ExtensionProperties)
vk_alloc n = some (replicate n blank)

device_extensions-Enumerates_example :
    Enumerates
      (all_extensions own)
      (vk_enumerate_device_extension_properties vk_alloc enum_dev_exts)
device_extensions-Enumerates_example =
    device_extensions-Enumerates driver-Enumerates (omega arith) vk_alloc (blank ∷ blank ∷ []) refl
      refl
