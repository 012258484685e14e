-- ===== src/VkMap/Keys/Laws.antt =====
-- Which of the key kinds of src/utils/map.c are lawful keys of the table: `uint32_t` and strings are,
-- `uint64_t` keys are not.
use vulkan_wsi_tizen.Common.{
  ℕ, ◌%◌, ◌≡◌, ◌≢◌, ◌↔◌, refl, sym, ap, ◌∙◌, Bool, true, Option, some, List, [], ◌∷◌, arith,
  get_elem?, get_elem?-set_self, set, lt_of_some,
}
use vulkan_wsi_tizen.VkMap.{
  Entry, VkMap, key_length, matches, get_bucket_index, get_bucket, get_loop, vk_map_get, set_loop,
  vk_map_set,
}
use vulkan_wsi_tizen.VkMap.Chain.{IsLawful}
use vulkan_wsi_tizen.VkMap.Keys.{
  two_32, vk_hash32, int32_hash, int32_key_compare, int32_funcs, int64_key_compare, int64_funcs,
  int64_key_length, string_key_compare, string_funcs,
}

-- `int32_key_compare` is zero for equal keys only.
int32_matches_iff : (a b : ℕ) → (matches int32_funcs a b ≡ true) ↔ (a % two_32 ≡ b % two_32)
unfolding matches int32_funcs int32_key_compare
int32_matches_iff a b = (λ h. ground arith, λ h. ground arith)

int32_hash_congr :
    (a b : ℕ)
    → a % two_32 ≡ b % two_32
    → int32_funcs.hash_func a (key_length int32_funcs a)
      ≡ int32_funcs.hash_func b (key_length int32_funcs b)
unfolding int32_funcs int32_hash
int32_hash_congr a b e = ap vk_hash32 e

-- The functions of an int32 map are lawful.
pub int32_funcs-IsLawful : IsLawful int32_funcs
int32_funcs-IsLawful = record {
  matches_refl = λ a. (int32_matches_iff a a).1 refl;
  matches_symm = λ a b. ground (arith, int32_matches_iff a b, int32_matches_iff b a);
  matches_trans = λ a b c p q.
      (int32_matches_iff a c).1 ((int32_matches_iff a b).0 p ∙ (int32_matches_iff b c).0 q);
  hash-matches = λ a b p. int32_hash_congr a b ((int32_matches_iff a b).0 p);
}

-- `int64_key_compare` looks at the low 32 bits of the keys only.
pub int64_matches_iff : (a b : ℕ) → (matches int64_funcs a b ≡ true) ↔ (a % two_32 ≡ b % two_32)
unfolding matches int64_funcs int64_key_compare
int64_matches_iff a b = (λ h. ground arith, λ h. ground arith)

module _ (strcmp : List ℕ → List ℕ → ℕ) (char_int : ℕ → ℕ)
    (strcmp_iff : (a b : List ℕ) → (strcmp a b ≡ 0) ↔ (a ≡ b)) where
  string_matches_iff :
      (a b : List ℕ) → (matches (string_funcs strcmp char_int) a b ≡ true) ↔ (a ≡ b)
  unfolding matches string_funcs string_key_compare key_length
  string_matches_iff a b =
      (λ h. ground (arith, strcmp_iff a b), λ e. rw e (ground (arith, strcmp_iff b b)))

  -- If `strcmp` is zero for equal strings only, the functions of a string map are lawful.
  pub string_funcs-IsLawful : IsLawful (string_funcs strcmp char_int)
  string_funcs-IsLawful = record {
    matches_refl = λ a. (string_matches_iff a a).1 refl;
    matches_symm = λ a b. ground (arith, string_matches_iff a b, string_matches_iff b a);
    matches_trans = λ a b c p q.
        (string_matches_iff a c).1 ((string_matches_iff a b).0 p ∙ (string_matches_iff b c).0 q);
    hash-matches = λ a b p. rw ((string_matches_iff a b).0 p);
  }

int64_length : (k : ℕ) → key_length int64_funcs k ≡ 8
unfolding key_length int64_funcs int64_key_length
int64_length k = refl

-- In an int64 map an entry that is alone in its bucket is also found under every other key that lands
-- in the bucket and has the same low 32 bits, whatever the high 32 bits are.
pub int64_conflates :
    {F : Type 0} (malloc : ℕ → Bool) (m : VkMap ℕ F) (bs : List (List (Entry ℕ F))) (k0 k1 v : ℕ)
    (ff : Option F)
    → m.funcs ≡ int64_funcs
    → m.buckets ≡ some bs
    → get_elem? bs (get_bucket_index m k0) ≡ some []
    → malloc 8 ≡ true
    → v ≢ 0
    → get_bucket_index m k1 ≡ get_bucket_index m k0
    → k1 % two_32 ≡ k0 % two_32
    → (m' : VkMap ℕ F) × (vk_map_set malloc m k0 v ff ≡ some (m', [])) × (vk_map_get m' k1 ≡ some v)
unfolding vk_map_set vk_map_get get_bucket get_bucket_index set_loop get_loop
int64_conflates malloc m bs k0 k1 v ff funcs table alone room stored collide low =
    let i = get_bucket_index m k0 in
    let curr : Entry ℕ _ = record { key = k0; data_ptr = v; free_func = ff } in
    let eight : key_length m.funcs k0 ≡ 8 = rw funcs (int64_length k0) in
    let hit : matches m.funcs k0 k1 ≡ true = rw funcs ((int64_matches_iff k0 k1).1 (sym low)) in
    let written : get_elem? (set bs i (curr ∷ [])) i ≡ some (curr ∷ []) =
      get_elem?-set_self bs i (curr ∷ []) (lt_of_some bs i [] alone) in
    (
      record m { buckets = some (set bs i (curr ∷ [])) },
      ground (arith, eight),
      (rw (collide, written) (rw hit)),
    )
