-- ===== src/Extensions/Device.antt =====
-- The enumeration of device extensions in src/wsi/extensions.c keeps the protocol, without duplicates.
use vulkan_wsi_tizen.Common.{
  ℕ, suc, ◌+◌, ◌%◌, ◌^◌, ◌≤◌, ◌<◌, ◌≡◌, refl, sym, ap, ◌∙◌, inl, inr, true, false, Option, some,
  List, [], ◌∷◌, ◌++◌, arith, length, take, drop, set, min, ltb, if◌then◌else◌, Bool-cases,
}
use vulkan_wsi_tizen.Enumerate.{Query}
use vulkan_wsi_tizen.Enumerate.Results.{success, incomplete}
use vulkan_wsi_tizen.Enumerate.Copy.{Enumerates, take-length}
use vulkan_wsi_tizen.Extensions.{
  ExtensionProperties, copy_device_extensions, vk_enumerate_device_extension_properties,
}
use vulkan_wsi_tizen.Extensions.Search.{is_listed}
use mathlib.Core.List.{append-nil}
use vulkan_wsi_tizen.Extensions.Merge.{
  merge-found, merge-absent, take-filled, length-filled, copy-filled, count-answer,
  take-append_left, set-filled, is_listed-take, count-all, filled, swapchain, swapchain_extension,
  all_extensions,
}

module _ {own : List ExtensionProperties} {enum_dev_exts : Query ExtensionProperties}
    (e : Enumerates own enum_dev_exts) (few : length own + 1 < 2 ^ 32) where
  -- Where the driver has the extension of the layer.
  fills-listed :
      (n : ℕ) (dst : List ExtensionProperties)
      → is_listed swapchain own ≡ true
      → min n (length own) ≤ length dst
      → copy_device_extensions enum_dev_exts n (length own) dst
        ≡ some (
          (if ltb n (length own) then incomplete else success),
          min n (length own),
          some (filled e few (min n (length own)) dst),
        )
  fills-listed n dst listed room =
      let m = min n (length own) in
      let same = take-filled e few m dst (omega arith) in
      let fits : m ≤ length (filled e few m dst) =
        omega (arith, length-filled e few m dst (omega arith) room) in
      let all : take (length own) own ≡ own = take-length (length own) own (omega arith) in
      let small : (m + 0) % 2 ^ 32 ≡ m = omega arith in
      copy-filled e few n dst room ∙ elim (Bool-cases (is_listed swapchain (take m own))) [
        | inl here ↦ ground (
          arith,
          merge-found e few (filled e few m dst) m (if ltb (length own) n then 1 else 0) fits same
              here,
        )
        | inr later ↦ elim (Bool-cases (ltb n (length own))) [
          | inl fewer ↦
              ground
                (arith, merge-absent e few (filled e few m dst) m 0 (inr (fits, refl)) same later)
          | inr enough ↦
              let full : m ≡ length own = ground arith in
              absurd (
                cc (
                  sym later
                  ∙ ap (λ k. is_listed swapchain (take k own)) full
                  ∙ ap (is_listed swapchain) all
                  ∙ listed))
        ]
      ]

  -- Where the driver does not have it and the caller wants no more than the driver's.
  fills-fewer :
      (n : ℕ) (dst : List ExtensionProperties)
      → is_listed swapchain own ≡ false
      → n ≤ length own
      → n ≤ length dst
      → copy_device_extensions enum_dev_exts n (length own) dst
        ≡ some (incomplete, n, some (filled e few n dst))
  fills-fewer n dst absent le room =
      let m : min n (length own) ≡ n = omega arith in
      let same = take-filled e few n dst le in
      let fits : n ≤ length (filled e few n dst) =
        omega (arith, length-filled e few n dst le room) in
      let small : (n + 0) % 2 ^ 32 ≡ n = omega arith in
      copy-filled e few n dst (omega arith)
      ∙ ground (
        arith,
        merge-absent e few (filled e few n dst) n 0 (inr (fits, refl)) same
            (is_listed-take swapchain n own absent),
      )

  -- Where the driver does not have it and the caller wants it too.
  fills-more :
      (n : ℕ) (dst : List ExtensionProperties)
      → is_listed swapchain own ≡ false
      → length own < n
      → length own < length dst
      → copy_device_extensions enum_dev_exts n (length own) dst
        ≡ some (
          success,
          length own + 1,
          some (set (filled e few (length own) dst) (length own) swapchain_extension),
        )
  fills-more n dst absent lt room =
      let m : min n (length own) ≡ length own = omega arith in
      let same = take-filled e few (length own) dst (omega arith) in
      let fits : length own < length (filled e few (length own) dst) =
        omega (arith, length-filled e few (length own) dst (omega arith) (omega arith)) in
      let small : (length own + 1) % 2 ^ 32 ≡ length own + 1 = omega arith in
      copy-filled e few n dst (omega arith)
      ∙ ground (
        arith,
        merge-absent e few (filled e few (length own) dst) (length own) 1 (inl fits) same
            (is_listed-take swapchain (length own) own absent),
      )

  fills-all :
      (n : ℕ) (dst : List ExtensionProperties)
      → min n (length (all_extensions own)) ≤ length dst
      → copy_device_extensions enum_dev_exts n (length own) dst
        ≡ some (
          (if ltb n (length (all_extensions own)) then incomplete else success),
          min n (length (all_extensions own)),
          some (
              take (min n (length (all_extensions own))) (all_extensions own)
              ++ drop (min n (length (all_extensions own))) dst),
        )
  fills-all n dst room =
      let sum = count-all own in
      elim (Bool-cases (is_listed swapchain own)) [
        | inl listed ↦
            let total : length (all_extensions own) ≡ length own = ground arith in
            let none_more : all_extensions own ≡ own = ground (arith, append-nil own) in
            fills-listed n dst listed (omega arith) ∙ rw none_more refl
        | inr absent ↦
            let total : length (all_extensions own) ≡ length own + 1 = ground arith in
            let one_more : all_extensions own ≡ own ++ swapchain_extension ∷ [] = ground arith in
            elim (Bool-cases (ltb (length own) n)) [
              | inr fewer ↦
                  let le : n ≤ length own = ground arith in
                  let m : min n (length (all_extensions own)) ≡ n = omega arith in
                  let front = take-append_left n own (swapchain_extension ∷ []) le in
                  fills-fewer n dst absent le (omega arith) ∙ ground arith
              | inl more ↦
                  let lt : length own < n = ground arith in
                  let m : min n (length (all_extensions own)) ≡ suc (length own) = omega arith in
                  let whole : take (suc (length own)) (all_extensions own) ≡ all_extensions own =
                    take-length (suc (length own)) (all_extensions own) (omega arith) in
                  let written = set-filled own dst swapchain_extension (omega arith) in
                  let own_whole : take (length own) own ≡ own =
                    take-length (length own) own (omega arith) in
                  fills-more n dst absent lt (omega arith) ∙ ground arith
            ]
      ]

-- If the driver enumerates its device extensions by the protocol, and there is memory for them,
-- then so does the layer: it enumerates the driver's extensions, and behind them the swapchain
-- extension unless the driver has it already, with the same count in the call without an array and
-- in the call with one.
pub device_extensions-Enumerates :
    {own : List ExtensionProperties} {enum_dev_exts : Query ExtensionProperties}
    → Enumerates own enum_dev_exts
    → length own + 1 < 2 ^ 32
    → (vk_alloc : ℕ → Option (List ExtensionProperties)) (block : List ExtensionProperties)
    → vk_alloc (length own) ≡ some block
    → length block ≡ length own
    → Enumerates
        (all_extensions own)
        (vk_enumerate_device_extension_properties vk_alloc enum_dev_exts)
unfolding vk_enumerate_device_extension_properties
device_extensions-Enumerates {own} {enum_dev_exts} e few vk_alloc block given size = record {
  counts = λ n. ground (arith, e.counts 0, count-answer e few vk_alloc block n given size);
  fills = λ n dst room. ground (arith, e.counts 0, fills-all e few n dst room);
}
