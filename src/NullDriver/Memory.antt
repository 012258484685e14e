-- ===== src/NullDriver/Memory.antt =====
-- The memory requirements of the objects of null-driver/null-driver.c, and the memory for them.
use vulkan_wsi_tizen.Common.{
  ℕ, ◌-◌, ◌^◌, ◌≡◌, refl, ap, ◌∙◌, Bool, true, false, not, Option, none, some, inl, inr, arith,
  ◌==◌, ◌>>=◌,
}
use mathlib.Core.Path.{sym}
use vulkan_wsi_tizen.Enumerate.Results.{success, VkResult}
use vulkan_wsi_tizen.NullDriver.Heap.{Heap, load}
use vulkan_wsi_tizen.NullDriver.Objects.{
  Object, NulldrvImg, nulldrv_img, nulldrv_buf, nulldrv_mem, nulldrv_bo, Created,
}
use vulkan_wsi_tizen.NullDriver.Objects.Calls.{
  create_buffer_call, allocate_memory_call, Call, run_call,
}
use vulkan_wsi_tizen.NullDriver.Objects.Creation.{run_call-Settles}
use vulkan_wsi_tizen.NullDriver.Objects.Promises.{Holds, Keeps}

-- `VkMemoryRequirements`
pub record MemoryRequirements : Type 0 where
  pub size : ℕ
  pub alignment : ℕ
  pub memory_type_bits : ℕ

unfoldable pub img_get_memory_requirements : NulldrvImg → MemoryRequirements
img_get_memory_requirements img = record {
  size = img.total_size;
  alignment = 4096;
  memory_type_bits = 2 ^ 32 - 1;
}

unfoldable pub buf_get_memory_requirements : (size : ℕ) → MemoryRequirements
buf_get_memory_requirements size = record { size = size; alignment = 4096; memory_type_bits = 1 }

-- `base->get_memory_requirements(base, requirements)`: only images and buffers have this function, and
-- the pointer is `NULL` in the other objects.
unfoldable pub base_memory_requirements : Heap Object → (base : ℕ) → Option MemoryRequirements
base_memory_requirements heap base = load heap base >>= λ object. elim object [
  | nulldrv_img img ↦ some (img_get_memory_requirements img)
  | nulldrv_buf size usage ↦ some (buf_get_memory_requirements size)
  | _ ↦ none
]

unfoldable pub get_buffer_memory_requirements :
    Heap Object → (buffer : ℕ) → Option MemoryRequirements
get_buffer_memory_requirements heap buffer = base_memory_requirements heap buffer

unfoldable pub get_image_memory_requirements : Heap Object → (image : ℕ) → Option MemoryRequirements
get_image_memory_requirements heap image = base_memory_requirements heap image

unfoldable pub nulldrv_mem_map : Heap Object → (mem : ℕ) → Option ℕ
nulldrv_mem_map heap mem =
    load heap mem >>= λ object. elim object [ nulldrv_mem bo size ↦ some bo | _ ↦ none ]

-- What is stored in `*pdata`, and whether the result is `VK_SUCCESS` or `VK_ERROR_MEMORY_MAP_FAILED`.
unfoldable pub map_memory : Heap Object → (memory : ℕ) → Option (ℕ × Bool)
map_memory heap memory = nulldrv_mem_map heap memory >>= λ ptr. some (ptr, not (ptr == 0))

buffer_requirements :
    (size usage : ℕ) (heap : Heap Object) (buffer : ℕ)
    → Holds (create_buffer_call size usage) heap buffer
    → get_buffer_memory_requirements heap buffer
      ≡ some (record { size = size; alignment = 4096; memory_type_bits = 1 })
unfolding get_buffer_memory_requirements base_memory_requirements buf_get_memory_requirements
buffer_requirements size usage heap buffer holds = rw holds refl

-- The memory of a live object can be mapped, at the store of the size that was asked for.
memory_mapped :
    (size : ℕ) (heap : Heap Object) (memory : ℕ)
    → Holds (allocate_memory_call size) heap memory
    → (bo : ℕ) × (map_memory heap memory ≡ some (bo, true))
      × (load heap bo ≡ some (nulldrv_bo size))
unfolding map_memory nulldrv_mem_map
memory_mapped size heap memory (bo, null, apart, mem, block) =
    let there : (bo == 0) ≡ false = ground arith in (bo, rw mem (ground arith), block)

created_is :
    (out : Created) (result : VkResult) (handle : Option ℕ)
    → out.0 ≡ result
    → out.1 ≡ handle
    → out ≡ (result, handle, out.2)
created_is (a, b, c) result handle p q = rw (p, q) refl

-- Where there is memory for all, a call succeeds.
always-Holds :
    (gives : ℕ → Bool)
    → ((n : ℕ) → gives n ≡ true)
    → (c : Call) (heap : Heap Object)
    → (p : ℕ) × (heap' : Heap Object) × (run_call gives c heap ≡ some (success, some p, heap'))
      × Holds c heap' p
      × Keeps heap heap'
always-Holds gives enough c heap =
    let (out, run, (kept, outcome)) = run_call-Settles gives c heap in
    elim outcome [
      | inr f ↦ let (n, full) = f.full in cc (sym (enough n) ∙ full)
      | inl s ↦ (
        s.handle,
        out.2,
        run ∙ ap some (created_is out success (some s.handle) s.result_is s.handle_is),
        s.holds,
        kept,
      )
    ]

-- What an application does for a buffer, where there is memory for all: the buffer is made, its
-- requirements ask for its size, memory is allocated for them, the buffer still has the same
-- requirements, and the memory maps to a live store of that size.
pub buffer_memory :
    (gives : ℕ → Bool)
    → ((n : ℕ) → gives n ≡ true)
    → (size usage : ℕ) (heap : Heap Object)
    → (buffer : ℕ) × (h1 : Heap Object) × (run_call gives (create_buffer_call size usage) heap
        ≡ some (success, some buffer, h1))
      × (r : MemoryRequirements) × (get_buffer_memory_requirements h1 buffer ≡ some r)
      × (r.size ≡ size)
      × (memory : ℕ) × (h2 : Heap Object) × (run_call gives (allocate_memory_call r.size) h1
          ≡ some (success, some memory, h2))
      × (get_buffer_memory_requirements h2 buffer ≡ some r)
      × (bo : ℕ) × (map_memory h2 memory ≡ some (bo, true))
      × (load h2 bo ≡ some (nulldrv_bo size))
buffer_memory gives enough size usage heap =
    let (buffer, h1, made, buffer_holds, _) =
      always-Holds gives enough (create_buffer_call size usage) heap in
    let (memory, h2, allocated, memory_holds, kept) =
      always-Holds gives enough (allocate_memory_call size) h1 in
    let (bo, mapped, block) = memory_mapped size h2 memory memory_holds in
    (
      buffer,
      h1,
      made,
      record { size = size; alignment = 4096; memory_type_bits = 1 },
      buffer_requirements size usage h1 buffer buffer_holds,
      refl,
      memory,
      h2,
      allocated,
      buffer_requirements size usage h2 buffer (kept.loads buffer _ buffer_holds),
      bo,
      mapped,
      block,
    )
