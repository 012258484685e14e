-- ===== src/Common/Counting.antt =====
-- How often a log has an event of a kind.
use vulkan_wsi_tizen.Common.{ℕ, ◌+◌, ◌≡◌, Bool, List, [], ◌∷◌, ◌++◌, arith, if◌then◌else◌}

abbrev pub indicator : Bool → ℕ
indicator b = if b then 1 else 0

module _ {A : Type 0} where
  abbrev pub count : (A → Bool) → List A → ℕ
  count p [] = 0
  count p (e ∷ events) = indicator (p e) + count p events

  pub count-append : (p : A → Bool) (xs ys : List A) → count p (xs ++ ys) ≡ count p xs + count p ys
  count-append p [] ys = omega arith
  count-append p (x ∷ xs) ys = omega (arith, count-append p xs ys)
