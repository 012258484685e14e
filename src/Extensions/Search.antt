-- ===== src/Extensions/Search.antt =====
-- The search for an extension by its name in src/wsi/extensions.c.
use vulkan_wsi_tizen.Common.{
  ℕ, zero, suc, ◌+◌, ◌≤◌, ◌≡◌, refl, inl, inr, Bool, false, ◌||◌, not, some, List, [], ◌∷◌, arith,
  length, take, drop, get_elem?, get_elem?_of_lt, ◌==◌, Bool-cases,
}
use Prim.Native.String.{String}
use text.Mathlib.Text.{◌==◌ as str_eq}
use vulkan_wsi_tizen.Extensions.{ExtensionProperties, search_loop}
use vulkan_wsi_tizen.Enumerate.Copy.{take-suc-drop}

-- Whether one of the extensions has the name.
unfoldable pub is_listed : String → List ExtensionProperties → Bool
is_listed name [] = false
is_listed name (e ∷ extensions) = str_eq e.extension_name name || is_listed name extensions

take-drop-suc :
    {A : Type 0} (n j : ℕ) (xs : List A) (x : A)
    → get_elem? xs j ≡ some x
    → take (suc n) (drop j xs) ≡ x ∷ take n (drop (j + 1) xs)
take-drop-suc n j xs x at =
    let one : j + 1 ≡ suc j = omega arith in rw one (take-suc-drop n j xs x at)

-- The search stays inside the array; it ends at the bound exactly if the name is not there.
pub search_loop-is_listed :
    (name : String) (n j : ℕ) (extensions : List ExtensionProperties)
    → j + n ≤ length extensions
    → (k : ℕ) × (search_loop name n j extensions ≡ some k)
      × ((k == j + n) ≡ not (is_listed name (take n (drop j extensions))))
      × (k ≤ j + n)
unfolding search_loop is_listed
search_loop-is_listed name zero j extensions fits = (j, refl, ground arith, omega arith)
search_loop-is_listed name (suc n) j extensions fits =
    let (e, at) = get_elem?_of_lt extensions j (omega arith) in
    let (k, run, end, le) = search_loop-is_listed name n (j + 1) extensions (omega arith) in
    let head = take-drop-suc n j extensions e at in
    elim (Bool-cases (str_eq e.extension_name name)) [
      | inl hit ↦ (j, ground arith, ground arith, omega arith)
      | inr miss ↦ (k, ground arith, ground arith, omega arith)
    ]
