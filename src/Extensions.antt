-- ===== src/Extensions.antt =====
-- src/wsi/extensions.c: the extensions of the instance and of a device. The driver's enumeration is a
-- parameter. A `uint32_t` wraps at 2 ^ 32.
pub mod Search
pub mod Merge
pub mod Device
mod Tests
use vulkan_wsi_tizen.Common.{
  ℕ, zero, suc, ◌+◌, ◌-◌, ◌%◌, ◌^◌, Bool, true, false, ◌||◌, Option, none, some, List, [], ◌∷◌,
  length, get_elem?, min, ltb, ◌==◌, if◌then◌else◌, ◌>>=◌,
}
use Prim.Native.String.{String}
use text.Mathlib.Text.{◌==◌ as str_eq}
use vulkan_wsi_tizen.Enumerate.{Answer, Query, write, memcpy}
use vulkan_wsi_tizen.Enumerate.Results.{
  VkResult, success, incomplete, error_out_of_host_memory, is_success,
}

-- `VkExtensionProperties`
pub record ExtensionProperties : Type 0 where
  pub extension_name : String
  pub spec_version : ℕ

-- The two fields of `vk_icd_t` that say what extensions the layer gives to an instance.
pub record InstanceExtensions : Type 0 where
  pub instance_extension_count : ℕ
  pub instance_extensions : List ExtensionProperties

unfoldable pub vk_enumerate_instance_extension_properties :
    InstanceExtensions → Query ExtensionProperties
vk_enumerate_instance_extension_properties icd count none =
    some (success, icd.instance_extension_count, none)
vk_enumerate_instance_extension_properties icd count (some extensions) =
    let n = min count icd.instance_extension_count in
    memcpy n icd.instance_extensions extensions >>= λ extensions.
    some ((if ltb n icd.instance_extension_count then incomplete else success), n, some extensions)

abbrev pub wsi_device_extensions : List ExtensionProperties
wsi_device_extensions = record { extension_name = "VK_KHR_swapchain"; spec_version = 67 } ∷ []

abbrev pub uint32 : ℕ → ℕ
uint32 n = n % 2 ^ 32

-- The loop over `j`, with `n` rounds left: where it breaks, or where it ends.
unfoldable pub search_loop : String → (n j : ℕ) → List ExtensionProperties → Option ℕ
search_loop name zero j extensions = some j
search_loop name (suc n) j extensions = get_elem? extensions j >>= λ e.
    let rest = search_loop name n (j + 1) extensions in
    if str_eq e.extension_name name then some j else rest

-- How many of the layer's extensions the driver does not have.
unfoldable pub count_loop : List ExtensionProperties → ℕ → List ExtensionProperties → ℕ → Option ℕ
count_loop [] max_ext_count device_extensions copy_count = some copy_count
count_loop (e ∷ rest) max_ext_count device_extensions copy_count =
    search_loop e.extension_name max_ext_count 0 device_extensions >>= λ j.
    count_loop rest max_ext_count device_extensions
      (if j == max_ext_count then copy_count + 1 else copy_count)

-- What the last loop keeps: `max_ext_count`, `copy_count` and the array of the caller.
abbrev pub Merged : Type 0
Merged = ℕ × ℕ × List ExtensionProperties

unfoldable pub merge_loop :
    List ExtensionProperties → (copied remaining : ℕ) → Merged → Option Merged
merge_loop [] copied remaining state = some state
merge_loop (e ∷ rest) copied remaining (max_ext_count, copy_count, extensions) =
    search_loop e.extension_name copied 0 extensions >>= λ j.
    if j == copied
    then (if ltb copy_count remaining
        then (write extensions (copied + copy_count) e >>= λ extensions'.
            merge_loop rest copied remaining (max_ext_count, copy_count + 1, extensions'))
        else some (max_ext_count, copy_count, extensions))
    else merge_loop rest copied remaining
        (uint32 (max_ext_count + 2 ^ 32 - 1), copy_count, extensions)

-- The branch without an array. `vk_alloc` gives an array of so many elements, with anything in it.
unfoldable pub device_extension_count :
    (vk_alloc : ℕ → Option (List ExtensionProperties))
    → Query ExtensionProperties
    → (count max_ext_count : ℕ) → Option (Answer ExtensionProperties)
device_extension_count vk_alloc enum_dev_exts count max_ext_count = elim (vk_alloc max_ext_count) [
  | none ↦ some (error_out_of_host_memory, count, none)
  | some block ↦ enum_dev_exts max_ext_count (some block) >>= λ (result, max_ext_count, filled).
      filled >>= λ device_extensions.
      if is_success result
      then (count_loop wsi_device_extensions max_ext_count device_extensions 0 >>= λ copy_count.
          some (success, uint32 (max_ext_count + copy_count), none))
      else some (error_out_of_host_memory, count, none)
]

abbrev pub is_incomplete : VkResult → Bool
is_incomplete incomplete = true
is_incomplete _ = false

-- The branch with an array.
unfoldable pub copy_device_extensions :
    Query ExtensionProperties
    → (count max_ext_count : ℕ) → List ExtensionProperties
    → Option (Answer ExtensionProperties)
copy_device_extensions enum_dev_exts count max_ext_count extensions =
    let max_ext_count = uint32 (max_ext_count + length wsi_device_extensions) in
    let remaining = min count max_ext_count in
    enum_dev_exts remaining (some extensions) >>= λ (result, copied, filled).
    filled >>= λ extensions.
    if is_success result || is_incomplete result
    then (merge_loop wsi_device_extensions copied
          (min (uint32 (remaining + 2 ^ 32 - copied)) (length wsi_device_extensions))
          (max_ext_count, 0, extensions)
        >>= λ (max_ext_count, copy_count, extensions).
            let n = uint32 (copied + copy_count) in
            some ((if ltb n max_ext_count then incomplete else success), n, some extensions))
    else some (error_out_of_host_memory, count, some extensions)

-- The first call of the driver does not read the count that it gets.
unfoldable pub vk_enumerate_device_extension_properties :
    (vk_alloc : ℕ → Option (List ExtensionProperties))
    → Query ExtensionProperties
    → Query ExtensionProperties
vk_enumerate_device_extension_properties vk_alloc enum_dev_exts count extensions =
    enum_dev_exts 0 none >>= λ (result, max_ext_count, _).
    if is_success result
    then elim extensions [
      | none ↦ device_extension_count vk_alloc enum_dev_exts count max_ext_count
      | some dst ↦ copy_device_extensions enum_dev_exts count max_ext_count dst
    ]
    else some (error_out_of_host_memory, count, extensions)
