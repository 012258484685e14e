-- ===== src/VkMap/Tests.antt =====
-- The map of src/utils/map.c at concrete inputs.
use vulkan_wsi_tizen.Common.{
  ℕ, ◌+◌, ◌^◌, ◌≡◌, ◌↔◌, refl, Bool, true, ◌||◌, none, some, List, [], ◌∷◌, arith, replicate, ◌==◌,
  if◌then◌else◌, get_elem?,
}
use vulkan_wsi_tizen.VkMap.{
  Entry, VkMap, Released, key_length, matches, get_bucket_index, get_bucket, vk_map_init,
  vk_map_create, get_loop, vk_map_get, release, set_loop, vk_map_set, clear_chain, clear_loop,
  vk_map_clear, vk_map_fini, vk_map_destroy,
}
use vulkan_wsi_tizen.VkMap.Chain.{IsLawful}
use vulkan_wsi_tizen.VkMap.Methods.{IsValid, is_present}
use vulkan_wsi_tizen.VkMap.Set.{IsUpdate, vk_map_set-IsUpdate}
use vulkan_wsi_tizen.VkMap.Clear.{owned, replicate-IsValid}
use vulkan_wsi_tizen.VkMap.Ownership.{tally, incoming, vk_map_set-conserves}
use vulkan_wsi_tizen.VkMap.Keys.{
  vk_hash32, vk_hash64, int32_hash, int32_key_length, int32_key_compare, int32_funcs, int64_hash,
  int64_key_length, int64_key_compare, int64_funcs,
}
use vulkan_wsi_tizen.VkMap.Keys.Laws.{int32_funcs-IsLawful, int64_conflates}

-- All that a run of an integer map computes with.
program : Unit {0}
unfolding key_length get_bucket_index get_bucket matches vk_map_init vk_map_create get_loop
    vk_map_get release set_loop vk_map_set clear_chain clear_loop vk_map_clear vk_map_fini
    vk_map_destroy vk_hash32 vk_hash64 int32_hash int32_key_length int32_key_compare int32_funcs
    int64_hash int64_key_length int64_key_compare int64_funcs
program = tt

abbrev always : ℕ → Bool
always _ = true

abbrev empty : VkMap ℕ ℕ
empty = record {
  funcs = int32_funcs;
  bucket_bits = 1;
  bucket_size = 2;
  bucket_mask = 1;
  buckets = some (replicate 2 []);
}

empty-IsValid : IsValid empty (replicate 2 [])
empty-IsValid = replicate-IsValid empty refl refl

-- The map after one `vk_map_set`.
abbrev one_entry :
    (r : VkMap ℕ ℕ × Released ℕ) × (bs' : List (List (Entry ℕ ℕ))) × (vk_map_set always empty 7 100
        (some 1)
      ≡ some r)
    × IsUpdate always empty 7 100 r bs'
one_entry = vk_map_set-IsUpdate int32_funcs-IsLawful empty-IsValid always 7 100 (some 1)

abbrev sample : VkMap ℕ ℕ
sample = one_entry.0.0

abbrev sample_buckets : List (List (Entry ℕ ℕ))
sample_buckets = one_entry.1

sample-IsValid : IsValid sample sample_buckets
sample-IsValid = one_entry.3.valid

sample-IsLawful : IsLawful sample.funcs
sample-IsLawful = rw (one_entry.3.funcs) int32_funcs-IsLawful

vk_map_set-IsUpdate_example :
    (r : VkMap ℕ ℕ × Released ℕ) × (bs' : List (List (Entry ℕ ℕ))) × (vk_map_set always sample 7 0
        none
      ≡ some r)
    × IsUpdate always sample 7 0 r bs'
vk_map_set-IsUpdate_example = vk_map_set-IsUpdate sample-IsLawful sample-IsValid always 7 0 none

abbrev to_one : ℕ × ℕ → Bool
to_one (f, v) = v == 100

vk_map_set-conserves_example :
    (r : VkMap ℕ ℕ × Released ℕ) × (bs' : List (List (Entry ℕ ℕ))) × (vk_map_set always sample 7 0
        none
      ≡ some r)
    × (r.0.buckets ≡ some bs')
    × (tally to_one r.1 + tally to_one (owned bs')
        ≡ tally to_one (owned sample_buckets)
          + (if is_present sample 7 || always (key_length sample.funcs 7)
              then tally to_one (incoming 0 none)
              else 0))
vk_map_set-conserves_example = vk_map_set-conserves to_one sample-IsValid always 7 0 none

-- A `strcmp` that tells lists of bytes apart.
abbrev strcmp : List ℕ → List ℕ → ℕ
strcmp [] [] = 0
strcmp [] (y ∷ ys) = 1
strcmp (x ∷ xs) [] = 1
strcmp (x ∷ xs) (y ∷ ys) = if x == y then strcmp xs ys else 1

strcmp_iff : (a b : List ℕ) → (strcmp a b ≡ 0) ↔ (a ≡ b)
strcmp_iff [] [] = (λ _. refl, λ _. refl)
strcmp_iff [] (y ∷ ys) = (λ h. absurd (omega arith), λ h. cc)
strcmp_iff (x ∷ xs) [] = (λ h. absurd (omega arith), λ h. cc)
strcmp_iff (x ∷ xs) (y ∷ ys) =
    (λ h. ground (arith, strcmp_iff xs ys), λ h. ground (arith, strcmp_iff xs ys))

abbrev int64_map : VkMap ℕ ℕ
int64_map = record {
  funcs = int64_funcs;
  bucket_bits = 0;
  bucket_size = 1;
  bucket_mask = 0;
  buckets = some ([] ∷ []);
}

in_first : get_elem? {A = List (Entry ℕ ℕ)} ([] ∷ []) (get_bucket_index int64_map 5) ≡ some []
unfolding program
in_first = refl

collides : get_bucket_index int64_map (5 + 2 ^ 32) ≡ get_bucket_index int64_map 5
unfolding program
collides = refl

int64_conflates_example :
    (m' : VkMap ℕ ℕ) × (vk_map_set always int64_map 5 100 none ≡ some (m', []))
    × (vk_map_get m' (5 + 2 ^ 32) ≡ some 100)
int64_conflates_example =
    int64_conflates always int64_map ([] ∷ []) 5 (5 + 2 ^ 32) 100 none refl refl in_first refl
      (omega arith) collides refl
