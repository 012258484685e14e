-- ===== src/Swapchain/Images.antt =====
-- The images of a swapchain of src/wsi/swapchain.c: how they are listed and acquired.
use vulkan_wsi_tizen.Common.{
  ℕ, zero, suc, ◌+◌, ◌≤◌, ◌<◌, ◌≡◌, ◌≢◌, ◌⊎◌, refl, sym, ap, ◌∙◌, inl, inr, Bool, true, false, none,
  some, List, map, arith, length, take, get_elem?, get_elem?_of_lt, ◌==◌, if◌then◌else◌, Bool-cases,
}
use native.Mathlib.Decide.{dec_lt}
use vulkan_wsi_tizen.Enumerate.Results.{VkResult, success, error_surface_lost_khr, is_success}
use vulkan_wsi_tizen.Enumerate.Copy.{Enumerates, loop-Enumerates}
use vulkan_wsi_tizen.Swapchain.{
  Buffer, Swapchain, vk_get_swapchain_images_khr, buffer_loop, vk_acquire_next_image_khr, Acquired,
}

-- The images of a swapchain are enumerated.
pub swapchain_images-Enumerates :
    (chain : Swapchain)
    → chain.buffer_count ≤ length chain.buffers
    → Enumerates
        (map (λ (b : Buffer). b.image) (take chain.buffer_count chain.buffers))
        (vk_get_swapchain_images_khr chain)
unfolding vk_get_swapchain_images_khr
swapchain_images-Enumerates chain fits =
    loop-Enumerates (λ (b : Buffer). b.image) chain.buffer_count chain.buffers _ fits (λ n. refl)
      (λ n dst. refl)

-- No buffer between two indices is the given one.
abbrev pub IsMissing : ℕ → ℕ → ℕ → List Buffer → Type 0
IsMissing tbm i j buffers =
    (k : ℕ) (b : Buffer) → i ≤ k → k < j → get_elem? buffers k ≡ some b → b.tbm ≢ tbm

-- The first buffer that is the given one.
pub record IsFirst (tbm i j index image : ℕ) (buffers : List Buffer) : Type 0 where
  pub buffer : Buffer
  pub at : get_elem? buffers index ≡ some buffer
  pub same : buffer.tbm ≡ tbm
  pub its_image : buffer.image ≡ image
  pub ge : i ≤ index
  pub lt : index < j
  pub before : IsMissing tbm i index buffers

IsMissing-from :
    (tbm i j : ℕ) (buffers : List Buffer) (b : Buffer)
    → get_elem? buffers i ≡ some b
    → b.tbm ≢ tbm
    → IsMissing tbm (i + 1) j buffers
    → IsMissing tbm i j buffers
IsMissing-from tbm i j buffers b at other missing k b' lo hi at' same = elim (dec_lt i k) [
  | yes above ↦ missing k b' (omega arith) hi at' same
  | no here ↦
      let first : k ≡ i = omega arith in
      let both : some b' ≡ some b = sym at' ∙ ap (get_elem? buffers) first ∙ at in
      let equal : b' ≡ b = cc both in other (ap (λ (x : Buffer). x.tbm) (sym equal) ∙ same)
]

buffer_loop-cases :
    (tbm n i j : ℕ) (buffers : List Buffer)
    → i + n ≡ j
    → j ≤ length buffers
    → (buffer_loop tbm n i buffers ≡ some none) × IsMissing tbm i j buffers
      ⊎ (index : ℕ) × (image : ℕ) × (buffer_loop tbm n i buffers ≡ some (some (index, image)))
        × IsFirst tbm i j index image buffers
unfolding buffer_loop
buffer_loop-cases tbm zero i j buffers e fits = inl (refl, λ k b lo hi. absurd (omega arith))
buffer_loop-cases tbm (suc n) i j buffers e fits =
    let (b, at) = get_elem?_of_lt buffers i (omega arith) in
    elim (Bool-cases (tbm == b.tbm)) [
      | inl hit ↦ inr (
        i,
        b.image,
        rw (at, hit) refl,
        record {
          buffer = b;
          at = at;
          same = ground arith;
          its_image = refl;
          ge = omega arith;
          lt = omega arith;
          before = λ k b' lo hi. absurd (omega arith);
        },
      )
      | inr miss ↦
          let other : b.tbm ≢ tbm = λ same. ground arith in
          elim (buffer_loop-cases tbm n (i + 1) j buffers (omega arith) fits) [
            | inl (run, missing) ↦
                inl (rw (at, miss) run, IsMissing-from tbm i j buffers b at other missing)
            | inr (index, image, run, first) ↦ inr (
              index,
              image,
              rw (at, miss) run,
              record {
                buffer = first.buffer;
                at = first.at;
                same = first.same;
                its_image = first.its_image;
                ge = omega (arith, first.ge);
                lt = first.lt;
                before = IsMissing-from tbm i index buffers b at other first.before;
              },
            )
          ]
    ]

-- The ways in which acquiring an image ends.
pub data Outcome (has : Bool) (chain : Swapchain) (res : VkResult) (tbm sync : ℕ)
    : Acquired → Type 0 where
  refused : is_success res ≡ false → Outcome has chain res tbm sync (res, none, none)
  unknown :
      is_success res ≡ true
      → IsMissing tbm 0 chain.buffer_count chain.buffers
      → Outcome has chain res tbm sync (error_surface_lost_khr, none, none)
  acquired :
      (index image : ℕ)
      → is_success res ≡ true
      → IsFirst tbm 0 chain.buffer_count index image chain.buffers
      → Outcome has chain res tbm sync
          (success, some index, if has then some (image, sync) else none)

-- On a swapchain that has its buffers, acquiring an image never reads outside them. It ends with
-- the error of the backend; or with a lost surface, if none of the buffers is the one that the
-- backend gave; or with the first index of that buffer, and then the driver, if it takes part, is
-- given the image at that index with the fence of the backend. In no other case is the index set or
-- the driver called.
pub vk_acquire_next_image_khr-Outcome :
    (has : Bool) (acquire_image : ℕ → Bool → VkResult × ℕ × ℕ) (chain : Swapchain) (timeout : ℕ)
    → chain.buffer_count ≤ length chain.buffers
    → (r : Acquired) × (vk_acquire_next_image_khr has acquire_image chain timeout ≡ some r)
      × Outcome has chain
          (acquire_image timeout has).0
          (acquire_image timeout has).1
          (acquire_image timeout has).2
          r
unfolding vk_acquire_next_image_khr
vk_acquire_next_image_khr-Outcome has acquire_image chain timeout fits =
    let (res, tbm, sync) = acquire_image timeout has in
    elim (Bool-cases (is_success res)) [
      | inr failed ↦ (_, rw failed refl, refused failed)
      | inl fine ↦
          elim (buffer_loop-cases tbm chain.buffer_count 0 chain.buffer_count chain.buffers
            (omega arith) fits) [
              | inl (run, missing) ↦ (_, rw (fine, run) refl, unknown fine missing)
              | inr (index, image, run, first) ↦
                  (_, rw (fine, run) refl, acquired index image fine first)
            ]
    ]
