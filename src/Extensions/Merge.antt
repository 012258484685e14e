-- ===== src/Extensions/Merge.antt =====
-- The enumeration of instance extensions in src/wsi/extensions.c, and the steps of that of device
-- extensions.
use vulkan_wsi_tizen.Common.{
  ℕ, zero, suc, ◌+◌, ◌-◌, ◌%◌, ◌^◌, ◌≤◌, ◌<◌, ◌≡◌, refl, ap, ◌∙◌, true, false, not, Option, none,
  some, List, [], ◌∷◌, ◌++◌, arith, length, take, drop, set, min, ltb, ◌==◌, if◌then◌else◌, ◌>>=◌,
  length-append, ◌⊎◌, length-take,
}
use Prim.Native.String.{String}
use vulkan_wsi_tizen.Enumerate.{Query, write}
use vulkan_wsi_tizen.Enumerate.Results.{success, incomplete}
use vulkan_wsi_tizen.Enumerate.Copy.{
  Enumerates, memcpy-Enumerates, take-length, fetch_all, take-take,
}
use vulkan_wsi_tizen.Extensions.{
  ExtensionProperties, InstanceExtensions, vk_enumerate_instance_extension_properties,
  wsi_device_extensions, search_loop, count_loop, merge_loop, device_extension_count,
  copy_device_extensions, uint32,
}
use vulkan_wsi_tizen.Extensions.Search.{is_listed, search_loop-is_listed}

-- The extensions of the layer for an instance are enumerated.
pub instance_extensions-Enumerates :
    (icd : InstanceExtensions)
    → icd.instance_extension_count ≤ length icd.instance_extensions
    → Enumerates
        (take icd.instance_extension_count icd.instance_extensions)
        (vk_enumerate_instance_extension_properties icd)
unfolding vk_enumerate_instance_extension_properties
instance_extensions-Enumerates icd fits =
    memcpy-Enumerates icd.instance_extension_count icd.instance_extensions _ fits (λ n. refl)
      (λ n dst. refl)

-- The driver's extensions, with those of the layer that the driver does not have behind them.
abbrev pub all_extensions : List ExtensionProperties → List ExtensionProperties
all_extensions own = own ++ (if is_listed "VK_KHR_swapchain" own then [] else wsi_device_extensions)

abbrev pub swapchain : String
swapchain = "VK_KHR_swapchain"

abbrev pub swapchain_extension : ExtensionProperties
swapchain_extension = record { extension_name = swapchain; spec_version = 67 }

-- The search of the whole array.
search_loop-whole :
    (own : List ExtensionProperties)
    → (k : ℕ) × (search_loop swapchain (length own) 0 own ≡ some k)
      × ((k == length own) ≡ not (is_listed swapchain own))
search_loop-whole own =
    let (k, run, end, le) = search_loop-is_listed swapchain (length own) 0 own (omega arith) in
    let same : 0 + length own ≡ length own = omega arith in
    let all : take (length own) own ≡ own = take-length (length own) own (omega arith) in
    (k, run, rw (same, all) at end)

-- The search of the first `m` elements of an array that begins as another one does.
search_loop-prefix :
    (own extensions : List ExtensionProperties) (m : ℕ)
    → m ≤ length extensions
    → take m extensions ≡ take m own
    → (k : ℕ) × (search_loop swapchain m 0 extensions ≡ some k)
      × ((k == m) ≡ not (is_listed swapchain (take m own)))
search_loop-prefix own extensions m fits same =
    let (k, run, end, le) = search_loop-is_listed swapchain m 0 extensions (omega arith) in
    let start : 0 + m ≡ m = omega arith in (k, run, rw (start, same) at end)

pub count-all :
    (own : List ExtensionProperties)
    → length (all_extensions own) ≡ length own + (if is_listed swapchain own then 0 else 1)
count-all own = ground (arith, length-append own [], length-append own wsi_device_extensions)

module _ {A : Type 0} where
  pub take-append_left : (m : ℕ) (xs ys : List A) → m ≤ length xs → take m (xs ++ ys) ≡ take m xs
  take-append_left zero xs ys h = refl
  take-append_left (suc m) [] ys h = absurd (omega arith)
  take-append_left (suc m) (x ∷ xs) ys h =
      ap (λ zs. x ∷ zs) (take-append_left m xs ys (omega arith))

  length-drop : (m : ℕ) (xs : List A) → m ≤ length xs → length (drop m xs) + m ≡ length xs
  length-drop zero xs h = omega arith
  length-drop (suc m) [] h = absurd (omega arith)
  length-drop (suc m) (x ∷ xs) h = omega (arith, length-drop m xs (omega arith))

  -- The element behind those that were copied.
  pub set-filled :
      (xs dst : List A) (x : A)
      → length xs < length dst
      → set (xs ++ drop (length xs) dst) (length xs) x
        ≡ (xs ++ x ∷ []) ++ drop (suc (length xs)) dst
  set-filled [] [] x h = absurd (omega arith)
  set-filled [] (d ∷ dst) x h = refl
  set-filled (y ∷ xs) [] x h = absurd (omega arith)
  set-filled (y ∷ xs) (d ∷ dst) x h = ap (λ zs. y ∷ zs) (set-filled xs dst x (omega arith))

pub is_listed-take :
    (name : String) (m : ℕ) (extensions : List ExtensionProperties)
    → is_listed name extensions ≡ false
    → is_listed name (take m extensions) ≡ false
unfolding is_listed
is_listed-take name zero extensions absent = refl
is_listed-take name (suc m) [] absent = refl
is_listed-take name (suc m) (e ∷ extensions) absent =
    ground (arith, is_listed-take name m extensions (ground arith))

module _ {own : List ExtensionProperties} {enum_dev_exts : Query ExtensionProperties}
    (e : Enumerates own enum_dev_exts) (few : length own + 1 < 2 ^ 32) where
  pub count-answer :
      (vk_alloc : ℕ → Option (List ExtensionProperties)) (block : List ExtensionProperties)
      (count : ℕ)
      → vk_alloc (length own) ≡ some block
      → length block ≡ length own
      → device_extension_count vk_alloc enum_dev_exts count (length own)
        ≡ some (success, length (all_extensions own), none)
  unfolding device_extension_count count_loop
  count-answer vk_alloc block count given size =
      let (k, run, end) = search_loop-whole own in
      let (_, fetched) = fetch_all e block size in let sum = count-all own in ground arith

  -- The loop over the layer's one extension.
  pub merge-found :
      (extensions : List ExtensionProperties) (m remaining : ℕ)
      → m ≤ length extensions
      → take m extensions ≡ take m own
      → is_listed swapchain (take m own) ≡ true
      → merge_loop wsi_device_extensions m remaining (length own + 1, 0, extensions)
        ≡ some (length own, 0, extensions)
  unfolding merge_loop
  merge-found extensions m remaining fits same listed =
      let (k, run, end) = search_loop-prefix own extensions m fits same in
      let wrapped : (length own + 1 + 2 ^ 32 - 1) % 2 ^ 32 ≡ length own = omega arith in
      ground arith

  pub merge-absent :
      (extensions : List ExtensionProperties) (m remaining : ℕ)
      → m < length extensions ⊎ (m ≤ length extensions) × (remaining ≡ 0)
      → take m extensions ≡ take m own
      → is_listed swapchain (take m own) ≡ false
      → merge_loop wsi_device_extensions m remaining (length own + 1, 0, extensions) ≡ (
          if remaining == 0
          then some (length own + 1, 0, extensions)
          else some (length own + 1, 1, set extensions m swapchain_extension))
  unfolding merge_loop write
  merge-absent extensions m remaining room same absent =
      let (k, run, end) = search_loop-prefix own extensions m (ground arith) same in
      let start : m + 0 ≡ m = omega arith in ground arith

  -- The array after the driver has written to it.
  abbrev pub filled : ℕ → List ExtensionProperties → List ExtensionProperties
  filled m dst = take m own ++ drop m dst

  pub take-filled :
      (m : ℕ) (dst : List ExtensionProperties) → m ≤ length own → take m (filled m dst) ≡ take m own
  take-filled m dst h =
      let size : m ≤ length (take m own) = omega (arith, length-take m own) in
      take-append_left m (take m own) (drop m dst) size
      ∙ take-take (λ (x : ExtensionProperties). x) m m own (omega arith)

  pub length-filled :
      (m : ℕ) (dst : List ExtensionProperties)
      → m ≤ length own
      → m ≤ length dst
      → length (filled m dst) ≡ length dst
  length-filled m dst h k =
      omega (arith, length-append (take m own) (drop m dst), length-take m own, length-drop m dst k)

  -- The second branch up to the loop.
  pub copy-filled :
      (n : ℕ) (dst : List ExtensionProperties)
      → min n (length own) ≤ length dst
      → copy_device_extensions enum_dev_exts n (length own) dst ≡ (
          merge_loop wsi_device_extensions
            (min n (length own))
            (if ltb (length own) n then 1 else 0)
            (length own + 1, 0, filled (min n (length own)) dst)
          >>= λ (max_ext_count, copy_count, extensions).
              let k = uint32 (min n (length own) + copy_count) in
              some ((if ltb k max_ext_count then incomplete else success), k, some extensions))
  unfolding copy_device_extensions
  copy-filled n dst room =
      let total : (length own + 1) % 2 ^ 32 ≡ length own + 1 = omega arith in
      let m : min (min n (length own + 1)) (length own) ≡ min n (length own) = omega arith in
      let left : min ((min n (length own + 1) + 2 ^ 32 - min n (length own)) % 2 ^ 32) 1
          ≡ (if ltb (length own) n then 1 else 0) =
        ground arith in
      ground (arith, e.fills (min n (length own + 1)) dst (omega arith))
