-- ===== src/NullDriver/Enumerations.antt =====
-- The enumerations of extensions in null-driver/null-driver.c.
use vulkan_wsi_tizen.Common.{
  ℕ, refl, none, some, List, [], ◌∷◌, length, arith, ltb, if◌then◌else◌, ◌>>=◌,
}
use vulkan_wsi_tizen.Enumerate.{Query, memcpy}
use vulkan_wsi_tizen.Enumerate.Results.{success, incomplete}
use vulkan_wsi_tizen.Enumerate.Copy.{Enumerates, memcpy-Enumerates}
use vulkan_wsi_tizen.Extensions.{ExtensionProperties}

abbrev pub nulldrv_ext_count : ℕ
nulldrv_ext_count = 1

abbrev pub instance_extensions : List ExtensionProperties
instance_extensions = record { extension_name = "VK_KHR_surface"; spec_version = 25 } ∷ []

abbrev pub device_extensions : List ExtensionProperties
device_extensions = record { extension_name = "VK_KHR_swapchain"; spec_version = 67 } ∷ []

unfoldable pub enumerate_instance_extension_properties : Query ExtensionProperties
enumerate_instance_extension_properties prop_count none = some (success, nulldrv_ext_count, none)
enumerate_instance_extension_properties prop_count (some props) =
    let copy_size = if ltb prop_count nulldrv_ext_count then prop_count else nulldrv_ext_count in
    memcpy copy_size instance_extensions props >>= λ props'.
    some ((if ltb copy_size nulldrv_ext_count then incomplete else success), copy_size, some props')

unfoldable pub enumerate_device_extension_properties : Query ExtensionProperties
enumerate_device_extension_properties prop_count none =
    some (success, length device_extensions, none)
enumerate_device_extension_properties prop_count (some props) =
    let extension_count = length device_extensions in
    let copy_size = if ltb prop_count extension_count then prop_count else extension_count in
    memcpy copy_size device_extensions props >>= λ props'.
    some ((if ltb copy_size extension_count then incomplete else success), copy_size, some props')

pub enumerate_instance-Enumerates :
    Enumerates instance_extensions enumerate_instance_extension_properties
unfolding enumerate_instance_extension_properties
enumerate_instance-Enumerates =
    memcpy-Enumerates 1 instance_extensions _ (omega arith) (λ n. refl) (λ n dst. ground arith)

pub enumerate_device-Enumerates : Enumerates device_extensions enumerate_device_extension_properties
unfolding enumerate_device_extension_properties
enumerate_device-Enumerates =
    memcpy-Enumerates 1 device_extensions _ (omega arith) (λ n. refl) (λ n dst. ground arith)
