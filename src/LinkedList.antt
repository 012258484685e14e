-- ===== src/LinkedList.antt =====
-- The intrusive list `vk_list_t` of src/utils/utils.h, on a heap of nodes. An address is a number,
-- 0 is NULL; a result `none` is a store through NULL.
pub mod Ring
pub mod Rotation
pub mod Operations
pub mod Removal
pub mod Lists
pub mod Splice
mod Tests
use vulkan_wsi_tizen.Common.{ℕ, Bool, true, false, Option, none, some, ◌==◌, if◌then◌else◌, ◌>>=◌}

-- The fields of `struct vk_list`, for all addresses.
pub record Heap : Type 0 where
  pub prev : ℕ → ℕ
  pub next : ℕ → ℕ
  pub item : ℕ → ℕ

abbrev pub null : ℕ
null = 0

abbrev pub set : (ℕ → ℕ) → ℕ → ℕ → ℕ → ℕ
set f a v x = if a == x then v else f x

-- The stores `a->prev = v`, `a->next = v` and `a->item = v`.
unfoldable pub store_prev : Heap → ℕ → ℕ → Option Heap
store_prev h a v = if a == null then none else some (record h { prev = set h.prev a v })

unfoldable pub store_next : Heap → ℕ → ℕ → Option Heap
store_next h a v = if a == null then none else some (record h { next = set h.next a v })

unfoldable pub store_item : Heap → ℕ → ℕ → Option Heap
store_item h a v = if a == null then none else some (record h { item = set h.item a v })

unfoldable pub vk_list_init : Heap → ℕ → Option Heap
vk_list_init h list =
    store_prev h list list >>= λ h. store_next h list list >>= λ h. store_item h list null

unfoldable pub vk_list_insert : Heap → (list elm : ℕ) → Option Heap
vk_list_insert h list elm = store_prev h elm list >>= λ h. store_next h elm (h.next list) >>= λ h.
    store_next h list elm >>= λ h. store_prev h (h.next elm) elm

unfoldable pub vk_list_remove : Heap → (list : ℕ) → Option Heap
vk_list_remove h list = store_next h (h.prev list) (h.next list) >>= λ h.
    store_prev h (h.next list) (h.prev list) >>= λ h.
    store_prev h list null >>= λ h. store_next h list null

unfoldable pub vk_list_empty : Heap → ℕ → Bool
vk_list_empty h list = h.next list == list

unfoldable pub vk_list_insert_list : Heap → (list other : ℕ) → Option Heap
vk_list_insert_list h list other =
    if vk_list_empty h other
    then some h
    else (store_prev h (h.next other) list >>= λ h.
        store_next h (h.prev other) (h.next list) >>= λ h.
        store_prev h (h.next list) (h.prev other) >>= λ h. store_next h list (h.next other))
