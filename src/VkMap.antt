-- ===== src/VkMap.antt =====
-- src/utils/map.c, the chained hash table `vk_map_t`: the table, its operations, and `free`.
-- A chain is the list of the entries in `next` order. A C `int` is its bit pattern, a number below
-- 2 ^ 32. A pointer is a number, and `NULL` is 0. What a key points at is a value of the type `K`.
pub mod Chain
pub mod Methods
pub mod Set
pub mod Clear
pub mod Ownership
pub mod Keys
mod Tests
use Prim.Native.Nat.{bit_and}
use vulkan_wsi_tizen.Common.{
  ℕ, zero, suc, ◌+◌, ◌-◌, ◌^◌, Bool, Option, none, some, List, [], ◌∷◌, ◌++◌, get_elem?, set, drop,
  replicate, ◌==◌, if◌then◌else◌, ◌>>=◌,
}

-- The functions of a map: `key_length_func` may be `NULL`.
pub record KeyFuncs (K : Type 0) : Type 0 where
  pub hash_func : K → ℕ → ℕ
  pub key_length_func : Option (K → ℕ)
  pub key_compare_func : K → ℕ → K → ℕ → ℕ

-- `struct vk_map_entry`; `F` is the type of function pointers to `free` functions.
pub record Entry (K F : Type 0) : Type 0 where
  pub key : K
  pub data_ptr : ℕ
  pub free_func : Option F

-- `struct vk_map`; `none` for the buckets is the `NULL` pointer.
pub record VkMap (K F : Type 0) : Type 0 where
  pub funcs : KeyFuncs K
  pub bucket_bits : ℕ
  pub bucket_size : ℕ
  pub bucket_mask : ℕ
  pub buckets : Option (List (List (Entry K F)))

-- The calls `free_func(data)` that an operation makes, in order.
abbrev pub Released : Type 0 → Type 0
Released F = List (F × ℕ)

module _ {K : Type 0} where
  -- `len = key_length_func ? key_length_func(key) : 0`
  unfoldable pub key_length : KeyFuncs K → K → ℕ
  key_length fs key = elim (fs.key_length_func) [ none ↦ 0 | some f ↦ f key ]

  -- The condition of both loops: `curr->key` first, the looked up key second.
  unfoldable pub matches : KeyFuncs K → K → K → Bool
  matches fs curr key = fs.key_compare_func curr (key_length fs curr) key (key_length fs key) == 0

module _ {K F : Type 0} where
  unfoldable pub get_bucket_index : VkMap K F → K → ℕ
  get_bucket_index m key = bit_and (m.funcs.hash_func key (key_length m.funcs key)) m.bucket_mask

  -- `*get_bucket(map, key)`; a read outside the array is a fault.
  unfoldable pub get_bucket : VkMap K F → K → Option (List (Entry K F))
  get_bucket m key = m.buckets >>= λ bs. get_elem? bs (get_bucket_index m key)

  unfoldable pub vk_map_init : KeyFuncs K → ℕ → Option (List (List (Entry K F))) → VkMap K F
  vk_map_init fs bits bs = record {
    funcs = fs;
    bucket_bits = bits;
    bucket_size = 2 ^ bits;
    bucket_mask = 2 ^ bits - 1;
    buckets = bs;
  }

  -- `calloc` gives zeroed memory for `1 << bucket_bits` pointers, or `NULL`.
  unfoldable pub vk_map_create : (calloc : ℕ → Bool) → KeyFuncs K → ℕ → Option (VkMap K F)
  vk_map_create calloc fs bits =
      if calloc (2 ^ bits)
      then some (vk_map_init fs bits (some (replicate (2 ^ bits) [])))
      else none

  unfoldable pub get_loop : KeyFuncs K → K → List (Entry K F) → ℕ
  get_loop fs key [] = 0
  get_loop fs key (curr ∷ rest) =
      if matches fs curr.key key then curr.data_ptr else get_loop fs key rest

  unfoldable pub vk_map_get : VkMap K F → K → Option ℕ
  vk_map_get m key = get_bucket m key >>= λ c. some (get_loop m.funcs key c)

  -- `if (curr->free_func) curr->free_func(curr->data);`
  unfoldable pub release : Entry K F → Released F
  release curr = elim (curr.free_func) [ none ↦ [] | some f ↦ (f, curr.data_ptr) ∷ [] ]

  -- The loop over the chain: the chain it leaves and what it released, if the key is there.
  unfoldable pub set_loop :
      KeyFuncs K → K → ℕ → Option F → List (Entry K F) → Option (List (Entry K F) × Released F)
  set_loop fs key value free_func [] = none
  set_loop fs key value free_func (curr ∷ rest) =
      if matches fs curr.key key
      then some (
        (if value == 0
            then rest
            else record curr { data_ptr = value; free_func = free_func } ∷ rest),
        release curr,
      )
      else set_loop fs key value free_func rest >>= λ r. some (curr ∷ r.0, r.1)

  -- `malloc` says whether there is memory for an entry with a key of the given length.
  unfoldable pub vk_map_set :
      (malloc : ℕ → Bool) → VkMap K F → K → ℕ → Option F → Option (VkMap K F × Released F)
  vk_map_set malloc m key value free_func = m.buckets >>= λ bs.
      let i = get_bucket_index m key in
      get_elem? bs i >>= λ c. elim (set_loop m.funcs key value free_func c) [
        | some (c', freed) ↦ some (record m { buckets = some (set bs i c') }, freed)
        | none ↦
            if value == 0
            then some (m, [])
            else if malloc (key_length m.funcs key)
            then (let curr : Entry K F = record {
              key = key;
              data_ptr = value;
              free_func = free_func;
            } in
                some (record m { buckets = some (set bs i (curr ∷ c)) }, []))
            else some (m, [])
      ]

  -- The inner loop of `vk_map_clear`.
  unfoldable pub clear_chain : List (Entry K F) → Released F
  clear_chain [] = []
  clear_chain (curr ∷ next) = release curr ++ clear_chain next

  -- The outer loop, `for (i = 0; i < bucket_size; i++)`, from bucket `i` with `n` rounds left.
  unfoldable pub clear_loop : ℕ → ℕ → List (List (Entry K F)) → Option (Released F)
  clear_loop zero i bs = some []
  clear_loop (suc n) i bs =
      get_elem? bs i >>= λ c. clear_loop n (i + 1) bs >>= λ freed. some (clear_chain c ++ freed)

  -- The loop, and `memset` on all the buckets.
  unfoldable pub vk_map_clear : VkMap K F → Option (VkMap K F × Released F)
  vk_map_clear m = elim (m.buckets) [
    | none ↦ some (m, [])
    | some bs ↦ clear_loop m.bucket_size 0 bs >>= λ freed.
        some
          (record m { buckets = some (replicate m.bucket_size [] ++ drop m.bucket_size bs) }, freed)
  ]

  unfoldable pub vk_map_fini : VkMap K F → Option (VkMap K F × Released F)
  vk_map_fini = vk_map_clear

  -- After `vk_map_fini` the map itself is freed, so that only the calls are left.
  unfoldable pub vk_map_destroy : VkMap K F → Option (Released F)
  vk_map_destroy m = vk_map_fini m >>= λ r. some r.1
