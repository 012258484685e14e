-- ===== src/VkMap/Methods.antt =====
-- The table of src/utils/map.c: its invariant, and `vk_map_create`, `vk_map_get` and `vk_map_set`
-- against the function from keys to data that the table stands for.
use vulkan_wsi_tizen.Common.{
  ℕ, ◌-◌, ◌^◌, ◌≤◌, ◌<◌, ◌≡◌, refl, ◌∙◌, inl, inr, Bool, false, not, none, some, List, [], arith,
  length, get_elem?, set, length-set, get_elem?_of_lt, get_elem?-set_self, get_elem?-set_ne, ◌==◌,
  if◌then◌else◌, Bool-cases,
}
use vulkan_wsi_tizen.Common.Bits.{bit_and-mask, pow_pos}
use native.Mathlib.Nat.{mod-lt}
use vulkan_wsi_tizen.VkMap.{
  Entry, VkMap, Released, get_bucket_index, get_bucket, get_loop, vk_map_get,
}
use vulkan_wsi_tizen.VkMap.Chain.{count, released_at}

module _ {K F : Type 0} where
  -- The table `bs` has one bucket for each value of the mask, and each key has at most one entry,
  -- in the bucket that it hashes to.
  pub record IsValid (m : VkMap K F) (bs : List (List (Entry K F))) : Type 0 where
    pub size : m.bucket_size ≡ 2 ^ m.bucket_bits
    pub mask : m.bucket_mask ≡ 2 ^ m.bucket_bits - 1
    pub table : m.buckets ≡ some bs
    pub width : length bs ≡ 2 ^ m.bucket_bits
    pub placed :
        (q : K) (i : ℕ) (c : List (Entry K F))
        → get_elem? bs i ≡ some c
        → count m.funcs q c ≤ (if get_bucket_index m q == i then 1 else 0)

  -- The data under a key, `NULL` if there is none.
  unfoldable pub view : VkMap K F → K → ℕ
  view m q = elim (vk_map_get m q) [ none ↦ 0 | some d ↦ d ]

  -- Whether the key has an entry.
  unfoldable pub is_present : VkMap K F → K → Bool
  is_present m k = elim (get_bucket m k) [ none ↦ false | some c ↦ not (count m.funcs k c == 0) ]

  -- What an operation that drops the data under the key must release.
  unfoldable pub owed : VkMap K F → K → Released F
  owed m k = elim (get_bucket m k) [ none ↦ [] | some c ↦ released_at m.funcs k c ]

  -- A bucket index lies below the number of buckets.
  pub get_bucket_index-lt :
      (m : VkMap K F) (k : K)
      → m.bucket_mask ≡ 2 ^ m.bucket_bits - 1
      → get_bucket_index m k < 2 ^ m.bucket_bits
  unfolding get_bucket_index
  get_bucket_index-lt m k mask = rw (mask, bit_and-mask) (mod-lt _ (pow_pos m.bucket_bits))

  module _ {m : VkMap K F} {bs : List (List (Entry K F))} (valid : IsValid m bs) where
    pub home : (k : K) → (c : List (Entry K F)) × (get_elem? bs (get_bucket_index m k) ≡ some c)
    home k =
        get_elem?_of_lt bs (get_bucket_index m k)
          (omega (arith, get_bucket_index-lt m k valid.mask, valid.width))

    pub get_bucket-home :
        (k : K) (c : List (Entry K F))
        → get_elem? bs (get_bucket_index m k) ≡ some c
        → get_bucket m k ≡ some c
    unfolding get_bucket
    get_bucket-home k c e = ground (arith, valid.table, e)

    -- `vk_map_get` never reads outside the table.
    pub vk_map_get-view : (k : K) → vk_map_get m k ≡ some (view m k)
    unfolding view vk_map_get
    vk_map_get-view k = let (c, e) = home k in ground (arith, get_bucket-home k c e)

    pub view-home :
        (k : K) (c : List (Entry K F))
        → get_elem? bs (get_bucket_index m k) ≡ some c
        → view m k ≡ get_loop m.funcs k c
    unfolding view vk_map_get
    view-home k c e = ground (arith, get_bucket-home k c e)

    -- A new chain in bucket `i`.
    pub replace-IsValid :
        (i : ℕ) (c : List (Entry K F))
        → i < length bs
        → ((q : K) → count m.funcs q c ≤ (if get_bucket_index m q == i then 1 else 0))
        → IsValid (record m { buckets = some (set bs i c) }) (set bs i c)
    unfolding get_bucket_index
    replace-IsValid i c lt fits = record {
      size = valid.size;
      mask = valid.mask;
      table = refl;
      width = length-set bs i c ∙ valid.width;
      placed = λ q j d e. elim (Bool-cases (i == j)) [
        | inl same ↦ ground (arith, get_elem?-set_self bs i c lt, fits q)
        | inr other ↦ ground (arith, get_elem?-set_ne bs i j c, valid.placed q j d)
      ];
    }

    pub view-replace :
        (i : ℕ) (c : List (Entry K F)) (q : K)
        → i < length bs
        → view (record m { buckets = some (set bs i c) }) q
          ≡ (if get_bucket_index m q == i then get_loop m.funcs q c else view m q)
    unfolding view vk_map_get get_bucket get_bucket_index
    view-replace i c q lt = elim (Bool-cases (get_bucket_index m q == i)) [
      | inl same ↦ ground (arith, get_elem?-set_self bs i c lt)
      | inr other ↦
          ground (arith, get_elem?-set_ne bs i (get_bucket_index m q) c, home q, valid.table)
    ]
