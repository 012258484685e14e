-- ===== src/VkMap/Chain.antt =====
-- One chain of src/utils/map.c: the loops of `vk_map_get` and `vk_map_set` on the entries of a bucket.
use vulkan_wsi_tizen.Common.{
  ℕ, ◌+◌, ◌≤◌, ◌<◌, ◌≡◌, refl, inl, inr, true, false, Option, none, some, List, [], ◌∷◌, ◌∙◌, ◌⊎◌,
  arith, ◌==◌, if◌then◌else◌, Bool-cases,
}
use vulkan_wsi_tizen.VkMap.{
  KeyFuncs, Entry, Released, key_length, matches, get_loop, release, set_loop,
}

-- What a hashed table asks of its functions: equal keys form an equivalence and hash alike.
pub record IsLawful {K : Type 0} (fs : KeyFuncs K) : Type 0 where
  pub matches_refl : (a : K) → matches fs a a ≡ true
  pub matches_symm : (a b : K) → matches fs a b ≡ matches fs b a
  pub matches_trans :
      (a b c : K) → matches fs a b ≡ true → matches fs b c ≡ true → matches fs a c ≡ true
  pub hash-matches :
      (a b : K)
      → matches fs a b ≡ true
      → fs.hash_func a (key_length fs a) ≡ fs.hash_func b (key_length fs b)

pub matches_congr :
    {K : Type 0} (fs : KeyFuncs K)
    → IsLawful fs
    → (a b c : K) → matches fs a b ≡ true
    → matches fs a c ≡ matches fs b c
matches_congr fs lawful a b c e =
    ground (arith, lawful.matches_symm a b, lawful.matches_trans a b c, lawful.matches_trans b a c)

module _ {K F : Type 0} where
  -- The number of entries under a key.
  unfoldable pub count : KeyFuncs K → K → List (Entry K F) → ℕ
  count fs q [] = 0
  count fs q (e ∷ c) = (if matches fs e.key q then 1 else 0) + count fs q c

  -- What overwriting or removing the entries under a key releases.
  unfoldable pub released_at : KeyFuncs K → K → List (Entry K F) → Released F
  released_at fs q [] = []
  released_at fs q (e ∷ c) = if matches fs e.key q then release e else released_at fs q c

  pub get_loop-eq-zero :
      (fs : KeyFuncs K) (q : K) (c : List (Entry K F)) → count fs q c ≡ 0 → get_loop fs q c ≡ 0
  unfolding count get_loop
  get_loop-eq-zero fs q [] h = refl
  get_loop-eq-zero fs q (e ∷ c) h = ground (arith, get_loop-eq-zero fs q c)

  -- How a run of the loop of `vk_map_set` ends that finds the key: the first match is overwritten
  -- or removed, the entries before it stay.
  pub data Found (fs : KeyFuncs K) (k : K) (v : ℕ) (ff : Option F)
      : List (Entry K F) → List (Entry K F) × Released F → Type 0 where
    here :
        {e : Entry K F} {c : List (Entry K F)}
        → matches fs e.key k ≡ true
        → Found fs k v ff
            (e ∷ c)
            ((if v == 0 then c else record e { data_ptr = v; free_func = ff } ∷ c), release e)
    there :
        {e : Entry K F} {c : List (Entry K F)} {r : List (Entry K F) × Released F}
        → matches fs e.key k ≡ false
        → Found fs k v ff c r
        → Found fs k v ff (e ∷ c) (e ∷ r.0, r.1)

  pub set_loop-cases :
      (fs : KeyFuncs K) (k : K) (v : ℕ) (ff : Option F) (c : List (Entry K F))
      → (set_loop fs k v ff c ≡ none) × (count fs k c ≡ 0)
        ⊎ (r : List (Entry K F) × Released F) × (set_loop fs k v ff c ≡ some r)
          × Found fs k v ff c r
  unfolding set_loop count
  set_loop-cases fs k v ff [] = inl (refl, refl)
  set_loop-cases fs k v ff (e ∷ c) = elim (Bool-cases (matches fs e.key k)) [
    | inl hit ↦ inr (_, rw hit refl, here hit)
    | inr miss ↦ elim (set_loop-cases fs k v ff c) [
      | inl (missing, none_left) ↦ inl (rw (miss, missing), rw miss (omega arith))
      | inr (r, run, found) ↦ inr ((e ∷ r.0, r.1), rw (miss, run), there miss found)
    ]
  ]

  module _ (fs : KeyFuncs K) (lawful : IsLawful fs) (k q : K) (v : ℕ) (ff : Option F) where
    pub Found-get :
        {c : List (Entry K F)} {r : List (Entry K F) × Released F}
        → Found fs k v ff c r
        → count fs q c ≤ 1
        → get_loop fs q r.0 ≡ (if matches fs k q then v else get_loop fs q c)
    unfolding count get_loop
    Found-get (here {e} {c} hit) few =
        ground (arith, matches_congr fs lawful e.key k q, get_loop-eq-zero fs q c)
    Found-get (there {e} miss found) few =
        ground (arith, Found-get found, lawful.matches_trans e.key q k, lawful.matches_symm k q)

    pub Found-count :
        {c : List (Entry K F)} {r : List (Entry K F) × Released F}
        → Found fs k v ff c r
        → count fs q r.0 ≤ count fs q c
    unfolding count
    Found-count (here hit) = ground arith
    Found-count (there miss found) = ground (arith, Found-count found)

  -- Equal keys have the same entries.
  pub count_congr :
      (fs : KeyFuncs K)
      → IsLawful fs
      → (k q : K) (c : List (Entry K F)) → matches fs k q ≡ true
      → count fs k c ≡ count fs q c
  unfolding count
  count_congr fs lawful k q [] same = refl
  count_congr fs lawful k q (e ∷ c) same =
      let at_left : matches fs e.key k ≡ matches fs e.key q =
        lawful.matches_symm e.key k
        ∙ matches_congr fs lawful k q e.key same
        ∙ lawful.matches_symm q e.key in
      rw (at_left, count_congr fs lawful k q c same)

  pub Found-release :
      {fs : KeyFuncs K} {k : K} {v : ℕ} {ff : Option F} {c : List (Entry K F)}
      {r : List (Entry K F) × Released F}
      → Found fs k v ff c r
      → r.1 ≡ released_at fs k c
  unfolding released_at
  Found-release (here hit) = rw hit
  Found-release (there miss found) = rw miss (Found-release found)

  pub released_at-eq-nil :
      (fs : KeyFuncs K) (k : K) (c : List (Entry K F)) → count fs k c ≡ 0 → released_at fs k c ≡ []
  unfolding released_at count
  released_at-eq-nil fs k [] h = refl
  released_at-eq-nil fs k (e ∷ c) h = ground (arith, released_at-eq-nil fs k c)

  pub Found-count_pos :
      {fs : KeyFuncs K} {k : K} {v : ℕ} {ff : Option F} {c : List (Entry K F)}
      {r : List (Entry K F) × Released F}
      → Found fs k v ff c r
      → 0 < count fs k c
  unfolding count
  Found-count_pos (here hit) = ground arith
  Found-count_pos (there miss found) = ground (arith, Found-count_pos found)
