-- ===== src/VkMap/Set.antt =====
-- `vk_map_set` of src/utils/map.c on every branch: overwrite, delete, insert, nothing to delete,
-- and no memory for a new entry.
use vulkan_wsi_tizen.Common.{
  ℕ, ◌<◌, ◌≡◌, refl, sym, ap, ◌∙◌, ◌⊎◌, inl, inr, Bool, true, false, ◌&&◌, ◌||◌, not, Option, some,
  List, [], ◌∷◌, arith, length, get_elem?, set, ◌==◌, if◌then◌else◌, Bool-cases,
}
use Prim.Native.Nat.{bit_and}
use vulkan_wsi_tizen.VkMap.{
  Entry, VkMap, Released, key_length, matches, get_bucket_index, get_loop, vk_map_set,
}
use vulkan_wsi_tizen.VkMap.Chain.{
  IsLawful, count, released_at, Found, set_loop-cases, Found-get, Found-count, Found-count_pos,
  Found-release, count_congr, get_loop-eq-zero, released_at-eq-nil,
}
use vulkan_wsi_tizen.VkMap.Methods.{
  IsValid, view, is_present, owed, get_bucket_index-lt, home, get_bucket-home, view-home,
  replace-IsValid, view-replace,
}

module _ {K F : Type 0} where
  -- What `vk_map_set` owes its caller: `bs'` is the table afterwards.
  pub record IsUpdate (malloc : ℕ → Bool) (m : VkMap K F) (k : K) (v : ℕ)
      (r : VkMap K F × Released F) (bs' : List (List (Entry K F))) : Type 0 where
    pub valid : IsValid r.0 bs'
    pub funcs : r.0.funcs ≡ m.funcs
    pub reads :
        (q : K)
        → view r.0 q ≡ (
            if matches m.funcs k q && (is_present m k || malloc (key_length m.funcs k))
            then v
            else view m q)
    pub freed : r.1 ≡ owed m k

  module _ {m : VkMap K F} {bs : List (List (Entry K F))} (lawful : IsLawful m.funcs)
      (valid : IsValid m bs) (k : K) {c : List (Entry K F)}
      (e : get_elem? bs (get_bucket_index m k) ≡ some c) where
    -- Equal keys share their bucket.
    same_home : (q : K) → matches m.funcs k q ≡ true → get_bucket_index m k ≡ get_bucket_index m q
    unfolding get_bucket_index
    same_home q same = ap (λ h. bit_and h m.bucket_mask) (lawful.hash-matches k q same)

    view_at :
        (q : K) → get_bucket_index m k ≡ get_bucket_index m q → view m q ≡ get_loop m.funcs q c
    view_at q same = view-home valid q c (ap (get_elem? bs) (sym same) ∙ e)

    index_lt : get_bucket_index m k < length bs
    index_lt = omega (arith, get_bucket_index-lt m k valid.mask, valid.width)

    is_present-count : is_present m k ≡ not (count m.funcs k c == 0)
    unfolding is_present
    is_present-count = ground (arith, get_bucket-home valid k c e)

    owed-released : owed m k ≡ released_at m.funcs k c
    unfolding owed
    owed-released = ground (arith, get_bucket-home valid k c e)

    found-IsUpdate :
        (malloc : ℕ → Bool) (v : ℕ) (ff : Option F) (r : List (Entry K F) × Released F)
        → Found m.funcs k v ff c r
        → IsUpdate malloc m k v
            (record m { buckets = some (set bs (get_bucket_index m k) r.0) }, r.1)
            (set bs (get_bucket_index m k) r.0)
    found-IsUpdate malloc v ff r found = record {
      valid =
          replace-IsValid valid (get_bucket_index m k) r.0 index_lt
            λ q. omega (arith, Found-count m.funcs lawful k q v ff found, valid.placed q _ c e);
      funcs = refl;
      reads = λ q. ground (
        arith,
        view-replace valid (get_bucket_index m k) r.0 q index_lt,
        same_home q,
        view_at q,
        Found-get m.funcs lawful k q v ff found,
        valid.placed q (get_bucket_index m k) c e,
        is_present-count,
        Found-count_pos found,
      );
      freed = Found-release found ∙ sym owed-released;
    }

    -- Where the key has no entry, every equal key reads `NULL`.
    absent_view : count m.funcs k c ≡ 0 → (q : K) → matches m.funcs k q ≡ true → view m q ≡ 0
    absent_view zero_at q same =
        view_at q (same_home q same)
        ∙ get_loop-eq-zero m.funcs q c (sym (count_congr m.funcs lawful k q c same) ∙ zero_at)

    unchanged-IsUpdate :
        (malloc : ℕ → Bool) (v : ℕ)
        → count m.funcs k c ≡ 0
        → (v ≡ 0) ⊎ (malloc (key_length m.funcs k) ≡ false)
        → IsUpdate malloc m k v (m, []) bs
    unchanged-IsUpdate malloc v zero_at why = record {
      valid = valid;
      funcs = refl;
      reads = λ q. ground (arith, absent_view zero_at q, is_present-count);
      freed = sym (owed-released ∙ released_at-eq-nil m.funcs k c zero_at);
    }

    inserted-IsUpdate :
        (malloc : ℕ → Bool) (v : ℕ) (ff : Option F)
        → count m.funcs k c ≡ 0
        → malloc (key_length m.funcs k) ≡ true
        → let curr : Entry K F = record { key = k; data_ptr = v; free_func = ff } in
          IsUpdate malloc m k v
            (record m { buckets = some (set bs (get_bucket_index m k) (curr ∷ c)) }, [])
            (set bs (get_bucket_index m k) (curr ∷ c))
    unfolding count get_loop
    inserted-IsUpdate malloc v ff zero_at room = record {
      valid = replace-IsValid valid (get_bucket_index m k) _ index_lt λ q. ground (
        arith,
        same_home q,
        count_congr m.funcs lawful k q c,
        valid.placed q (get_bucket_index m k) c e,
      );
      funcs = refl;
      reads = λ q. ground (
        arith,
        view-replace valid (get_bucket_index m k)
            (record { key = k; data_ptr = v; free_func = ff } ∷ c) q index_lt,
        same_home q,
        view_at q,
        is_present-count,
      );
      freed = sym (owed-released ∙ released_at-eq-nil m.funcs k c zero_at);
    }

  -- `vk_map_set` on a valid map with lawful functions never faults, keeps the map valid and its
  -- functions, releases exactly the data that it drops, and sets the data of the keys that are equal
  -- to the given one (`NULL` deletes), unless the key is new and there is no memory for its entry;
  -- every other key keeps its data.
  pub vk_map_set-IsUpdate :
      {m : VkMap K F} {bs : List (List (Entry K F))}
      → IsLawful m.funcs
      → IsValid m bs
      → (malloc : ℕ → Bool) (k : K) (v : ℕ) (ff : Option F)
      → (r : VkMap K F × Released F) × (bs' : List (List (Entry K F))) × (vk_map_set malloc m k v ff
          ≡ some r)
        × IsUpdate malloc m k v r bs'
  unfolding vk_map_set
  vk_map_set-IsUpdate {m} {bs} lawful valid malloc k v ff =
      let (c, e) = home valid k in
      elim (set_loop-cases m.funcs k v ff c) [
        | inr (r, run, found) ↦ (
          _,
          _,
          ground (arith, valid.table, e, run),
          found-IsUpdate lawful valid k e malloc v ff r found,
        )
        | inl (run, zero_at) ↦ elim (Bool-cases (v == 0)) [
          | inl null ↦ (
            (m, []),
            bs,
            ground (arith, valid.table, e, run),
            unchanged-IsUpdate lawful valid k e malloc v zero_at (inl (ground arith)),
          )
          | inr stored ↦ elim (Bool-cases (malloc (key_length m.funcs k))) [
            | inl room ↦ (
              _,
              _,
              ground (arith, valid.table, e, run),
              inserted-IsUpdate lawful valid k e malloc v ff zero_at room,
            )
            | inr full ↦ (
              (m, []),
              bs,
              ground (arith, valid.table, e, run),
              unchanged-IsUpdate lawful valid k e malloc v zero_at (inr full),
            )
          ]
        ]
      ]
