-- ===== src/VkMap/Ownership.antt =====
-- Who owns the data of a map of src/utils/map.c: what `vk_map_set` takes in is in the map or released.
use vulkan_wsi_tizen.Common.{
  ℕ, zero, suc, ◌+◌, ◌≡◌, refl, inl, inr, Bool, true, false, ◌||◌, Option, none, some, List, [],
  ◌∷◌, ◌++◌, arith, get_elem?, set, ◌==◌, if◌then◌else◌, Bool-cases,
}
use mathlib.Core.List.{flatten}
use vulkan_wsi_tizen.VkMap.{
  KeyFuncs, Entry, VkMap, Released, key_length, get_bucket_index, release, clear_chain, vk_map_set,
}
use vulkan_wsi_tizen.VkMap.Chain.{Found, here, there, set_loop-cases, Found-count_pos}
use vulkan_wsi_tizen.VkMap.Methods.{IsValid, is_present, get_bucket-home, home}
use vulkan_wsi_tizen.VkMap.Clear.{owned, clear_chain-append}

module _ {A : Type 0} (p : A → Bool) where
  -- How many values pass a test.
  unfoldable pub tally : List A → ℕ
  tally [] = 0
  tally (x ∷ xs) = (if p x then 1 else 0) + tally xs

  tally-nil : tally [] ≡ 0
  unfolding tally
  tally-nil = refl

  pub tally-append : (xs ys : List A) → tally (xs ++ ys) ≡ tally xs + tally ys
  unfolding tally
  tally-append [] ys = omega arith
  tally-append (x ∷ xs) ys = omega (arith, tally-append xs ys)

-- The obligation that comes with new data: `NULL` carries none.
unfoldable pub incoming : {F : Type 0} → ℕ → Option F → Released F
incoming v ff = if v == 0 then [] else elim ff [ none ↦ [] | some f ↦ (f, v) ∷ [] ]

nothing :
    {F : Type 0} (p : F × ℕ → Bool) (v : ℕ) (ff : Option F)
    → (v == 0) ≡ true
    → tally p (incoming v ff) ≡ 0
unfolding incoming tally
nothing p v ff null = rw null

module _ {K F : Type 0} (p : F × ℕ → Bool) where
  owned-cons :
      (b : List (Entry K F)) (bs : List (List (Entry K F)))
      → tally p (owned (b ∷ bs)) ≡ tally p (clear_chain b) + tally p (owned bs)
  unfolding owned flatten
  owned-cons b bs = simp (clear_chain-append, tally-append)

  Found-tally :
      {fs : KeyFuncs K} {k : K} {v : ℕ} {ff : Option F} {c : List (Entry K F)}
      {r : List (Entry K F) × Released F}
      → Found fs k v ff c r
      → tally p r.1 + tally p (clear_chain r.0) ≡ tally p (clear_chain c) + tally p (incoming v ff)
  unfolding clear_chain release incoming tally
  Found-tally {v} {ff} (here {e} {c} hit) =
      let new : Entry K F = record e { data_ptr = v; free_func = ff } in
      ground (
        arith,
        tally-append p (release e) (clear_chain c),
        tally-append p (release new) (clear_chain c),
      )
  Found-tally (there {e} {c} {r} miss found) = omega (
    arith,
    Found-tally found,
    tally-append p (release e) (clear_chain c),
    tally-append p (release e) (clear_chain r.0),
  )

  owned-set :
      (bs : List (List (Entry K F))) (i : ℕ) (c d : List (Entry K F))
      → get_elem? bs i ≡ some c
      → tally p (owned (set bs i d)) + tally p (clear_chain c)
        ≡ tally p (owned bs) + tally p (clear_chain d)
  owned-set [] i c d h = cc
  owned-set (b ∷ bs) zero c d h = ground (arith, owned-cons b bs, owned-cons d bs)
  owned-set (b ∷ bs) (suc i) c d h =
      omega (arith, owned-cons b bs, owned-cons b (set bs i d), owned-set bs i c d h)

  chain_cons :
      (k : K) (v : ℕ) (ff : Option F) (c : List (Entry K F))
      → (v == 0) ≡ false
      → tally p (clear_chain (record { key = k; data_ptr = v; free_func = ff } ∷ c))
        ≡ tally p (clear_chain c) + tally p (incoming v ff)
  unfolding incoming tally clear_chain release
  chain_cons k v ff c stored =
      let new : Entry K F = record { key = k; data_ptr = v; free_func = ff } in
      ground (arith, tally-append p (release new) (clear_chain c))

  -- Whatever a run of `vk_map_set` on a valid map stores, overwrites or deletes, each obligation to
  -- free data is afterwards either met by a call or still in the table, as often as before, plus that
  -- of the new data, which counts only if the key was there or there was memory for a new entry.
  pub vk_map_set-conserves :
      {m : VkMap K F} {bs : List (List (Entry K F))}
      → IsValid m bs
      → (malloc : ℕ → Bool) (k : K) (v : ℕ) (ff : Option F)
      → (r : VkMap K F × Released F) × (bs' : List (List (Entry K F))) × (vk_map_set malloc m k v ff
          ≡ some r)
        × (r.0.buckets ≡ some bs')
        × (tally p r.1 + tally p (owned bs')
            ≡ tally p (owned bs)
              + (if is_present m k || malloc (key_length m.funcs k)
                  then tally p (incoming v ff)
                  else 0))
  unfolding vk_map_set is_present
  vk_map_set-conserves {m} {bs} valid malloc k v ff =
      let (c, e) = home valid k in
      let i = get_bucket_index m k in
      let got = get_bucket-home valid k c e in
      let table = valid.table in
      elim (set_loop-cases m.funcs k v ff c) [
        | inr (r, run, found) ↦ (
          (record m { buckets = some (set bs i r.0) }, r.1),
          set bs i r.0,
          ground (arith, table, e, run),
          refl,
          ground (arith, got, Found-count_pos found, Found-tally found, owned-set bs i c r.0 e),
        )
        | inl (run, zero_at) ↦ elim (Bool-cases (v == 0)) [
          | inl null ↦ (
            (m, []),
            bs,
            ground (arith, table, e, run),
            table,
            ground (arith, tally-nil p, nothing p v ff null),
          )
          | inr stored ↦ elim (Bool-cases (malloc (key_length m.funcs k))) [
            | inl room ↦
                let curr : Entry K F = record { key = k; data_ptr = v; free_func = ff } in
                (
                  (record m { buckets = some (set bs i (curr ∷ c)) }, []),
                  set bs i (curr ∷ c),
                  ground (arith, table, e, run),
                  refl,
                  ground (
                    arith,
                    got,
                    tally-nil p,
                    owned-set bs i c (curr ∷ c) e,
                    chain_cons k v ff c stored,
                  ),
                )
            | inr full ↦ (
              (m, []),
              bs,
              ground (arith, table, e, run),
              table,
              ground (arith, tally-nil p, got),
            )
          ]
        ]
      ]
