-- ===== src/VkMap/Keys.antt =====
-- The three kinds of key that src/utils/map.c provides: `uint32_t`, `uint64_t` and C strings.
-- `>>` on `uint32_t` is division, `<<` wraps, and a conversion to `int` keeps the low 32 bits.
pub mod Laws
use Prim.Native.Nat.{bit_xor}
use vulkan_wsi_tizen.Common.{
  ℕ, ◌+◌, ◌-◌, ◌*◌, ◌/◌, ◌%◌, ◌^◌, Bool, Option, none, some, List, [], ◌∷◌, ◌++◌, length, take, ltb,
  ◌==◌, if◌then◌else◌,
}
use vulkan_wsi_tizen.VkMap.{KeyFuncs, Entry, VkMap, vk_map_init, vk_map_create}

abbrev pub two_32 : ℕ
two_32 = 2 ^ 32

abbrev pub two_64 : ℕ
two_64 = 2 ^ 64

unfoldable pub vk_hash32 : ℕ → ℕ
vk_hash32 key =
    let key = (two_32 - 1 - key + key * 2 ^ 15) % two_32 in
    let key = bit_xor key (key / 2 ^ 12) in
    let key = (key + key * 2 ^ 2) % two_32 in
    let key = bit_xor key (key / 2 ^ 4) in
    let key = (key * 2057) % two_32 in bit_xor key (key / 2 ^ 16)

unfoldable pub vk_hash64 : ℕ → ℕ
vk_hash64 key =
    let key = (two_64 - 1 - key + key * 2 ^ 18) % two_64 in
    let key = bit_xor key (key / 2 ^ 31) in
    let key = (key * 21) % two_64 in
    let key = bit_xor key (key / 2 ^ 11) in
    let key = (key + key * 2 ^ 6) % two_64 in bit_xor key (key / 2 ^ 22) % two_32

-- A key is read as `*(const uint32_t *)key`, and the other two as `uint64_t` operands.
unfoldable pub int32_hash : ℕ → ℕ → ℕ
int32_hash key length = vk_hash32 (key % two_32)

unfoldable pub int32_key_length : ℕ → ℕ
int32_key_length key = 4

unfoldable pub int32_key_compare : ℕ → ℕ → ℕ → ℕ → ℕ
int32_key_compare key0 len0 key1 len1 =
    let k0 = key0 % two_32 in let k1 = key1 % two_32 in (k0 + two_64 - k1) % two_64 % two_32

unfoldable pub int64_hash : ℕ → ℕ → ℕ
int64_hash key length = vk_hash64 (key % two_64)

unfoldable pub int64_key_length : ℕ → ℕ
int64_key_length key = 8

-- `(int)(k0 - k1)` drops the upper half of the difference.
unfoldable pub int64_key_compare : ℕ → ℕ → ℕ → ℕ → ℕ
int64_key_compare key0 len0 key1 len1 =
    let k0 = key0 % two_64 in let k1 = key1 % two_64 in (k0 + two_64 - k1) % two_64 % two_32

unfoldable pub int32_funcs : KeyFuncs ℕ
int32_funcs = record {
  hash_func = int32_hash;
  key_length_func = some int32_key_length;
  key_compare_func = int32_key_compare;
}

unfoldable pub int64_funcs : KeyFuncs ℕ
int64_funcs = record {
  hash_func = int64_hash;
  key_length_func = some int64_key_length;
  key_compare_func = int64_key_compare;
}

-- `x >> k` on the bit pattern of a negative `int` fills with ones.
unfoldable pub shr_int : ℕ → ℕ → ℕ
shr_int x k = if ltb x (2 ^ 31) then x / 2 ^ k else x / 2 ^ k + two_32 - 2 ^ (32 - k)

-- `x << k` on a bit pattern.
unfoldable pub shl_int : ℕ → ℕ → ℕ
shl_int x k = (x * 2 ^ k) % two_32

unfoldable pub add_int : ℕ → ℕ → ℕ
add_int x y = (x + y) % two_32

-- The little endian value of two bytes.
unfoldable pub get16bits : ℕ → ℕ → ℕ
get16bits b0 b1 = b1 * 2 ^ 8 + b0

module _ (char_int : ℕ → ℕ) where
  -- The last bytes: `switch (rem)`. `char_int` is the conversion of a `char` to `int`.
  unfoldable pub string_hash_end : ℕ → List ℕ → ℕ
  unfolding get16bits shl_int shr_int add_int
  string_hash_end hash [] = hash
  string_hash_end hash (b0 ∷ []) =
      let hash = add_int hash (char_int b0) in
      let hash = bit_xor hash (shl_int hash 10) in add_int hash (shr_int hash 1)
  string_hash_end hash (b0 ∷ b1 ∷ []) =
      let hash = add_int hash (get16bits b0 b1) in
      let hash = bit_xor hash (shl_int hash 11) in add_int hash (shr_int hash 17)
  string_hash_end hash (b0 ∷ b1 ∷ b2 ∷ rest) =
      let hash = add_int hash (get16bits b0 b1) in
      let hash = bit_xor hash (shl_int hash 16) in
      let hash = bit_xor hash (shl_int (char_int b2) 18) in add_int hash (shr_int hash 11)

  -- The main loop takes four bytes a round, while there are four.
  unfoldable pub string_hash_loop : ℕ → List ℕ → ℕ
  unfolding string_hash_end
  string_hash_loop hash (b0 ∷ b1 ∷ b2 ∷ b3 ∷ rest) =
      let first = add_int hash (get16bits b0 b1) in
      let tmp = bit_xor (shl_int (get16bits b2 b3) 11) first in
      let mixed = bit_xor (shl_int first 16) tmp in
      string_hash_loop (add_int mixed (shr_int mixed 11)) rest
  string_hash_loop hash rest = string_hash_end hash rest

  -- A C string is the list of its bytes; the terminating zero is one of the `len` bytes that are read.
  unfoldable pub string_hash : List ℕ → ℕ → ℕ
  unfolding string_hash_loop
  string_hash str len =
      let hash = string_hash_loop (len % two_32) (take len (str ++ 0 ∷ [])) in
      let hash = bit_xor hash (shl_int hash 3) in
      let hash = add_int hash (shr_int hash 5) in
      let hash = bit_xor hash (shl_int hash 4) in
      let hash = add_int hash (shr_int hash 17) in
      let hash = bit_xor hash (shl_int hash 25) in add_int hash (shr_int hash 6)

-- `none` is the `NULL` pointer.
unfoldable pub string_key_length : Option (List ℕ) → ℕ
string_key_length none = 0
string_key_length (some str) = (length str + 1) % two_32

module _ (strcmp : List ℕ → List ℕ → ℕ) where
  unfoldable pub string_key_compare : List ℕ → ℕ → List ℕ → ℕ → ℕ
  string_key_compare key0 len0 key1 len1 =
      let delta = (len0 + two_32 - len1) % two_32 in if delta == 0 then strcmp key0 key1 else delta

  unfoldable pub string_funcs : (char_int : ℕ → ℕ) → KeyFuncs (List ℕ)
  string_funcs char_int = record {
    hash_func = string_hash char_int;
    key_length_func = some (λ str. string_key_length (some str));
    key_compare_func = string_key_compare;
  }

module _ {F : Type 0} where
  unfoldable pub vk_map_int32_init : ℕ → Option (List (List (Entry ℕ F))) → VkMap ℕ F
  vk_map_int32_init bits bs = vk_map_init int32_funcs bits bs

  unfoldable pub vk_map_int64_init : ℕ → Option (List (List (Entry ℕ F))) → VkMap ℕ F
  vk_map_int64_init bits bs = vk_map_init int64_funcs bits bs

  unfoldable pub vk_map_int32_create : (calloc : ℕ → Bool) → ℕ → Option (VkMap ℕ F)
  vk_map_int32_create calloc bits = vk_map_create calloc int32_funcs bits

  unfoldable pub vk_map_int64_create : (calloc : ℕ → Bool) → ℕ → Option (VkMap ℕ F)
  vk_map_int64_create calloc bits = vk_map_create calloc int64_funcs bits

  module _ (strcmp : List ℕ → List ℕ → ℕ) (char_int : ℕ → ℕ) where
    unfoldable pub vk_map_string_init :
        ℕ → Option (List (List (Entry (List ℕ) F))) → VkMap (List ℕ) F
    vk_map_string_init bits bs = vk_map_init (string_funcs strcmp char_int) bits bs

    unfoldable pub vk_map_string_create : (calloc : ℕ → Bool) → ℕ → Option (VkMap (List ℕ) F)
    vk_map_string_create calloc bits = vk_map_create calloc (string_funcs strcmp char_int) bits
