-- ===== src/NullDriver/Lookup/Answers.antt =====
-- What the three lookups of null-driver/null-driver.c answer for the names of the tables.
use vulkan_wsi_tizen.Common.{
  ℕ, zero, suc, ◌+◌, ◌≤◌, ◌<◌, ◌≡◌, refl, Bool, true, false, ◌&&◌, not, Option, none, some, List,
  [], ◌∷◌, ◌++◌, length, get_elem?, arith, ◌==◌, ltb, if◌then◌else◌, Bool-cases, inl, inr,
  lt_of_some,
}
use Prim.Native.String.{String}
use text.Mathlib.Text.{◌==◌ as str_eq}
use text.Mathlib.TextEquality.{eq_iff}
use vulkan_wsi_tizen.NullDriver.Tables.{NulldrvEntry, device_funcs, global_funcs, instance_funcs}
use vulkan_wsi_tizen.NullDriver.Lookup.{
  find_func, find_in_tables, get_device_proc_addr, get_instance_proc_addr,
  vk_icd_get_instance_proc_addr,
}
use mathlib.Core.List.{append-nil}

abbrev is_absent : String → List NulldrvEntry → Bool
is_absent name [] = true
is_absent name (e ∷ funcs) = not (str_eq name e.name) && is_absent name funcs

abbrev are_distinct : List NulldrvEntry → Bool
are_distinct [] = true
are_distinct (e ∷ funcs) = is_absent e.name funcs && are_distinct funcs

abbrev pub all_funcs : List NulldrvEntry
all_funcs = global_funcs ++ (instance_funcs ++ device_funcs)

all_funcs-distinct : are_distinct all_funcs ≡ true
unfolding global_funcs instance_funcs device_funcs
all_funcs-distinct = refl

find_func-absent :
    (name : String) (funcs : List NulldrvEntry)
    → is_absent name funcs ≡ true
    → find_func name funcs ≡ none
unfolding find_func
find_func-absent name [] absent = refl
find_func-absent name (e ∷ funcs) absent =
    ground (arith, find_func-absent name funcs (ground arith))

is_absent-append :
    (name : String) (xs ys : List NulldrvEntry)
    → is_absent name (xs ++ ys) ≡ is_absent name xs && is_absent name ys
is_absent-append name [] ys = refl
is_absent-append name (e ∷ xs) ys = ground (arith, is_absent-append name xs ys)

is_absent-get_elem? :
    (name : String) (funcs : List NulldrvEntry) (i : ℕ) (e : NulldrvEntry)
    → is_absent name funcs ≡ true
    → get_elem? funcs i ≡ some e
    → str_eq e.name name ≡ false
is_absent-get_elem? name [] i e absent found = cc
is_absent-get_elem? name (x ∷ funcs) zero e absent found =
    ground (arith, eq_iff name x.name, eq_iff e.name name)
is_absent-get_elem? name (x ∷ funcs) (suc i) e absent found =
    is_absent-get_elem? name funcs i e (ground arith) found

-- An entry of the first of two tables is found there and not in the second.
find_func-front :
    (xs ys : List NulldrvEntry) (i : ℕ) (e : NulldrvEntry)
    → are_distinct (xs ++ ys) ≡ true
    → get_elem? (xs ++ ys) i ≡ some e
    → i < length xs
    → (find_func e.name xs ≡ some e.func) × (is_absent e.name ys ≡ true)
unfolding find_func
find_func-front [] ys i e distinct found lt = absurd (omega arith)
find_func-front (x ∷ xs) ys zero e distinct found lt =
    let split = is_absent-append x.name xs ys in
    (ground (arith, eq_iff e.name x.name), ground arith)
find_func-front (x ∷ xs) ys (suc i) e distinct found lt =
    let (first, rest) = find_func-front xs ys i e (ground arith) found (omega arith) in
    let other = is_absent-get_elem? x.name (xs ++ ys) i e (ground arith) found in
    (ground arith, rest)

-- An entry of the second of two tables is not found in the first.
find_func-behind :
    (xs ys : List NulldrvEntry) (i : ℕ) (e : NulldrvEntry)
    → are_distinct (xs ++ ys) ≡ true
    → get_elem? (xs ++ ys) i ≡ some e
    → length xs ≤ i
    → (find_func e.name xs ≡ none)
      × (k : ℕ) × (i ≡ length xs + k)
      × (get_elem? ys k ≡ some e)
      × (are_distinct ys ≡ true)
unfolding find_func
find_func-behind [] ys i e distinct found le = (refl, i, omega arith, found, distinct)
find_func-behind (x ∷ xs) ys zero e distinct found le = absurd (omega arith)
find_func-behind (x ∷ xs) ys (suc i) e distinct found le =
    let (first, k, at, there, rest) =
      find_func-behind xs ys i e (ground arith) found (omega arith) in
    let other = is_absent-get_elem? x.name (xs ++ ys) i e (ground arith) found in
    (ground arith, k, omega (arith, at), there, rest)

-- Where the `i`-th of all functions stands.
abbrev pub is_global : ℕ → Bool
is_global i = ltb i (length global_funcs)

abbrev pub is_device : ℕ → Bool
is_device i = not (ltb i (length global_funcs + length instance_funcs))

abbrev pub func_or_null : Bool → NulldrvEntry → Option String
func_or_null shown e = if shown then some e.func else none

-- The answers of the three lookups for the name of the `i`-th of all functions.
pub record Answers (i : ℕ) (e : NulldrvEntry) : Type 0 where
  pub icd_proc_addr : (handle : ℕ) → vk_icd_get_instance_proc_addr handle e.name ≡ some e.func
  pub instance_proc_addr :
      (handle : ℕ)
      → get_instance_proc_addr handle e.name
        ≡ func_or_null (if is_global i then handle == 0 else not (handle == 0)) e
  pub device_proc_addr :
      (device : ℕ) → get_device_proc_addr device e.name ≡ func_or_null (is_device i) e

-- Every function of the three tables is given for its name by `vk_icdGetInstanceProcAddr`, whatever
-- the instance; by `get_instance_proc_addr` without an instance if it is global and with one if it
-- is not; and by `get_device_proc_addr` if it is one of the device. Otherwise the answer is `NULL`.
pub all_funcs-Answers : (i : ℕ) (e : NulldrvEntry) → get_elem? all_funcs i ≡ some e → Answers i e
unfolding find_in_tables get_device_proc_addr get_instance_proc_addr vk_icd_get_instance_proc_addr
all_funcs-Answers i e found = elim (Bool-cases (is_global i)) [
  | inl global ↦
      let (first, others) =
        find_func-front global_funcs (instance_funcs ++ device_funcs) i e all_funcs-distinct found
          (ground arith) in
      let split = is_absent-append e.name instance_funcs device_funcs in
      let no_instance = find_func-absent e.name instance_funcs (ground arith) in
      let no_device = find_func-absent e.name device_funcs (ground arith) in
      record {
        icd_proc_addr = λ handle. ground arith;
        instance_proc_addr = λ handle. ground arith;
        device_proc_addr = λ device. ground arith;
      }
  | inr local ↦
      let (no_global, k, at, there, distinct) =
        find_func-behind global_funcs (instance_funcs ++ device_funcs) i e all_funcs-distinct found
          (ground arith) in
      elim (Bool-cases (is_device i)) [
        | inr of_instance ↦
            let (first, others) =
              find_func-front instance_funcs device_funcs k e distinct there (ground arith) in
            let no_device = find_func-absent e.name device_funcs others in
            record {
              icd_proc_addr = λ handle. ground arith;
              instance_proc_addr = λ handle. ground arith;
              device_proc_addr = λ device. ground arith;
            }
        | inl of_device ↦
            let (no_instance, j, at_device, behind, apart) =
              find_func-behind instance_funcs device_funcs k e distinct there (ground arith) in
            let whole = append-nil device_funcs in
            let (first, nothing) =
              find_func-front device_funcs [] j e (rw whole apart) (rw whole behind)
                (lt_of_some device_funcs j e behind) in
            record {
              icd_proc_addr = λ handle. ground arith;
              instance_proc_addr = λ handle. ground arith;
              device_proc_addr = λ device. ground arith;
            }
      ]
]
