-- ===== src/EntryPoints/Table.antt =====
-- The table of src/wsi/entry-points.c and its search.
use vulkan_wsi_tizen.Common.{
  ℕ, zero, suc, ◌≡◌, refl, Bool, true, false, ◌&&◌, not, some, List, [], ◌∷◌, arith, get_elem?,
}
use Prim.Native.String.{String}
use text.Mathlib.Text.{◌==◌ as str_eq}
use text.Mathlib.TextEquality.{eq_iff}
use vulkan_wsi_tizen.EntryPoints.{VkEntry, entry_points, find_entry, get_entry_point}

-- Whether no entry has the name.
abbrev is_absent : String → List VkEntry → Bool
is_absent name [] = true
is_absent name (e ∷ entries) = not (str_eq e.name name) && is_absent name entries

abbrev are_distinct : List VkEntry → Bool
are_distinct [] = true
are_distinct (e ∷ entries) = is_absent e.name entries && are_distinct entries

is_absent-get_elem? :
    (name : String) (entries : List VkEntry) (i : ℕ) (e : VkEntry)
    → is_absent name entries ≡ true
    → get_elem? entries i ≡ some e
    → str_eq name e.name ≡ false
is_absent-get_elem? name [] i e absent found = cc
is_absent-get_elem? name (x ∷ entries) zero e absent found =
    ground (arith, eq_iff x.name name, eq_iff name e.name)
is_absent-get_elem? name (x ∷ entries) (suc i) e absent found =
    is_absent-get_elem? name entries i e (ground arith) found

find_entry-distinct :
    (entries : List VkEntry) (i : ℕ) (e : VkEntry)
    → are_distinct entries ≡ true
    → get_elem? entries i ≡ some e
    → find_entry e.name entries ≡ some e
unfolding find_entry
find_entry-distinct [] i e distinct found = cc
find_entry-distinct (x ∷ entries) zero e distinct found = ground (arith, eq_iff x.name e.name)
find_entry-distinct (x ∷ entries) (suc i) e distinct found = ground (
  arith,
  is_absent-get_elem? x.name entries i e (ground arith) found,
  find_entry-distinct entries i e (ground arith) found,
)

entry_points-distinct : are_distinct entry_points ≡ true
unfolding entry_points
entry_points-distinct = refl

-- No two entries of the table have the same name: every entry is the one that its name finds.
pub get_entry_point_complete :
    (i : ℕ) (e : VkEntry) → get_elem? entry_points i ≡ some e → get_entry_point e.name ≡ some e
unfolding get_entry_point
get_entry_point_complete i e found =
    find_entry-distinct entry_points i e entry_points-distinct found

-- What the search finds has the name that was asked for.
pub find_entry-name :
    (name : String) (entries : List VkEntry) (e : VkEntry)
    → find_entry name entries ≡ some e
    → e.name ≡ name
unfolding find_entry
find_entry-name name [] e found = cc
find_entry-name name (x ∷ entries) e found =
    ground (arith, eq_iff x.name name, find_entry-name name entries e)
