-- ===== src/VkMap/Clear.antt =====
-- `vk_map_create`, `vk_map_clear` and `vk_map_destroy` of src/utils/map.c.
use vulkan_wsi_tizen.Common.{
  ℕ, zero, suc, ◌+◌, ◌-◌, ◌^◌, ◌≡◌, refl, sym, ap, ◌∙◌, ◌⊎◌, inl, inr, Bool, false, none, some,
  List, [], ◌∷◌, ◌++◌, arith, length, get_elem?, drop, replicate, length-replicate, Bool-cases,
  get_elem?_of_lt,
}
use mathlib.Core.List.{flatten, append-nil, append_assoc}
use vulkan_wsi_tizen.VkMap.{
  KeyFuncs, Entry, VkMap, Released, get_bucket_index, vk_map_init, vk_map_create, get_loop,
  clear_chain, clear_loop, vk_map_clear, vk_map_fini, vk_map_destroy,
}
use vulkan_wsi_tizen.VkMap.Chain.{count}
use vulkan_wsi_tizen.VkMap.Methods.{IsValid, view, home, view-home}

module _ {A : Type 0} where
  get_elem?-replicate : (n i : ℕ) (a b : A) → get_elem? (replicate n a) i ≡ some b → b ≡ a
  get_elem?-replicate zero i a b h = cc
  get_elem?-replicate (suc n) zero a b h = cc
  get_elem?-replicate (suc n) (suc i) a b h = get_elem?-replicate n i a b h

  drop-length : (xs : List A) → drop (length xs) xs ≡ []
  drop-length [] = refl
  drop-length (x ∷ xs) = drop-length xs

  -- What stands at and behind an index.
  drop-cons :
      (xs : List A) (i : ℕ) (x : A) → get_elem? xs i ≡ some x → drop i xs ≡ x ∷ drop (suc i) xs
  drop-cons [] i x h = cc
  drop-cons (y ∷ xs) zero x h = cc
  drop-cons (y ∷ xs) (suc i) x h = drop-cons xs i x h

module _ {K F : Type 0} where
  pub clear_chain-append :
      (c d : List (Entry K F)) → clear_chain (c ++ d) ≡ clear_chain c ++ clear_chain d
  unfolding clear_chain
  clear_chain-append [] d = refl
  clear_chain-append (e ∷ c) d = simp (clear_chain-append c d, append_assoc)

  -- The data that a table owns, in the order of its buckets and chains.
  unfoldable pub owned : List (List (Entry K F)) → Released F
  owned bs = clear_chain (flatten bs)

  clear_loop-owned :
      (n i : ℕ) (bs : List (List (Entry K F)))
      → i + n ≡ length bs
      → clear_loop n i bs ≡ some (owned (drop i bs))
  unfolding clear_loop owned clear_chain flatten
  clear_loop-owned zero i bs h = let end : i ≡ length bs = omega arith in rw (end, drop-length bs)
  clear_loop-owned (suc n) i bs h =
      let (c, e) = get_elem?_of_lt bs i (omega arith) in
      let one : i + 1 ≡ suc i = omega arith in
      rw (drop-cons bs i c e, e, clear_loop-owned n (i + 1) bs (omega arith), one)
        (ap some (sym (clear_chain-append c _)))

  pub replicate-IsValid :
      (m : VkMap K F)
      → m.bucket_size ≡ 2 ^ m.bucket_bits
      → m.bucket_mask ≡ 2 ^ m.bucket_bits - 1
      → let bs = replicate (2 ^ m.bucket_bits) [] in IsValid (record m { buckets = some bs }) bs
  unfolding count
  replicate-IsValid m size mask = record {
    size = size;
    mask = mask;
    table = refl;
    width = length-replicate _ _;
    placed = λ q i c e. rw (get_elem?-replicate (2 ^ m.bucket_bits) i [] c e) (omega arith);
  }

  empty_view : {m : VkMap K F} (n : ℕ) → IsValid m (replicate n []) → (q : K) → view m q ≡ 0
  unfolding get_loop
  empty_view {m} n valid q =
      let (c, e) = home valid q in
      view-home valid q c e ∙ rw (get_elem?-replicate n (get_bucket_index m q) [] c e)

  -- `vk_map_create` gives `NULL` without memory, and else a valid map in which every key reads `NULL`.
  pub vk_map_create-IsValid :
      (calloc : ℕ → Bool) (fs : KeyFuncs K) (bits : ℕ)
      → (calloc (2 ^ bits) ≡ false) × (vk_map_create {F = F} calloc fs bits ≡ none)
        ⊎ (m : VkMap K F) × (vk_map_create calloc fs bits ≡ some m)
          × IsValid m (replicate (2 ^ bits) [])
          × (m.funcs ≡ fs)
          × ((q : K) → view m q ≡ 0)
  unfolding vk_map_create vk_map_init
  vk_map_create-IsValid calloc fs bits = elim (Bool-cases (calloc (2 ^ bits))) [
    | inl room ↦
        let m : VkMap K F = vk_map_init fs bits none in
        let valid = replicate-IsValid m refl refl in
        inr (_, rw room, valid, refl, empty_view _ valid)
    | inr full ↦ inl (full, rw full)
  ]

  pub vk_map_clear-owned :
      {m : VkMap K F} {bs : List (List (Entry K F))}
      → IsValid m bs
      → (m' : VkMap K F) × (vk_map_clear m ≡ some (m', owned bs))
        × IsValid m' (replicate m.bucket_size [])
        × (m'.funcs ≡ m.funcs)
        × ((q : K) → view m' q ≡ 0)
  unfolding vk_map_clear
  vk_map_clear-owned {m} {bs} valid =
      let same : m.bucket_size ≡ length bs = valid.size ∙ sym valid.width in
      let cleared = replicate-IsValid m valid.size valid.mask in
      let valid' = rw (← valid.size) at cleared in
      let emptied : drop m.bucket_size bs ≡ [] = rw same (drop-length bs) in
      let blank : List (List (Entry K F)) = replicate m.bucket_size [] in
      let zeroed : blank ++ drop m.bucket_size bs ≡ blank = rw emptied (append-nil blank) in
      (
        record m { buckets = some blank },
        ground (arith, valid.table, clear_loop-owned m.bucket_size 0 bs, zeroed),
        valid',
        refl,
        empty_view _ valid',
      )

  -- `vk_map_destroy` on a valid map calls the `free` function of every entry once.
  pub vk_map_destroy-owned :
      {m : VkMap K F} {bs : List (List (Entry K F))}
      → IsValid m bs
      → vk_map_destroy m ≡ some (owned bs)
  unfolding vk_map_destroy vk_map_fini
  vk_map_destroy-owned valid = let (m', run, kept, same, empty) = vk_map_clear-owned valid in rw run
