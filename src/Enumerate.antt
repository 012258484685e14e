-- ===== src/Enumerate.antt =====
-- The protocol by which the entry points of src/wsi hand out arrays: a call with no array gives the
-- count, a call with an array fills it as far as it and the count go, and says if something is left.
pub mod Results
pub mod Copy
use vulkan_wsi_tizen.Common.{
  ℕ, zero, suc, ◌+◌, ◌≤◌, ◌≡◌, refl, Option, none, some, List, [], ◌∷◌, ◌++◌, arith, length, take,
  drop, set, get_elem?, ltb, leb, min, if◌then◌else◌, ◌>>=◌, ◌&&◌,
}
use vulkan_wsi_tizen.Enumerate.Results.{VkResult, success, incomplete}

-- What a call leaves: its result, the count, and the caller's array, if it gave one.
abbrev pub Answer : Type 0 → Type 0
Answer A = VkResult × ℕ × Option (List A)

-- A query on the caller's count and array. `none` is an access outside an array.
abbrev pub Query : Type 0 → Type 0
Query A = ℕ → Option (List A) → Option (Answer A)

module _ {A : Type 0} where
  -- `dst[i] = x`
  unfoldable pub write : List A → ℕ → A → Option (List A)
  write dst i x = if ltb i (length dst) then some (set dst i x) else none

  -- `memcpy(dst, src, n * sizeof(*dst))`
  unfoldable pub memcpy : ℕ → List A → List A → Option (List A)
  memcpy n src dst =
      if leb n (length src) && leb n (length dst) then some (take n src ++ drop n dst) else none

-- `for (; n > 0; n--, i++) dst[i] = f(src[i]);`
unfoldable pub copy_loop : {A B : Type 0} → (f : B → A) → ℕ → ℕ → List B → List A → Option (List A)
copy_loop f zero i src dst = some dst
copy_loop f (suc n) i src dst =
    get_elem? src i >>= λ x. write dst i (f x) >>= λ dst'. copy_loop f n (i + 1) src dst'
