-- ===== src/NullDriver/Commands.antt =====
-- The command buffers and the descriptor sets of null-driver/null-driver.c, of which one call makes
-- several. A list is the array that a call writes to; an index outside of it is a fault.
pub mod Buffers
pub mod Sets
use vulkan_wsi_tizen.Common.{
  ℕ, zero, suc, ◌+◌, Bool, Option, none, some, List, [], ◌∷◌, get_elem?, ◌>>=◌,
}
use vulkan_wsi_tizen.Enumerate.{write}
use vulkan_wsi_tizen.Enumerate.Results.{VkResult, success, error_out_of_host_memory}
use vulkan_wsi_tizen.NullDriver.Heap.{Heap, load, store, free}
use vulkan_wsi_tizen.NullDriver.Objects.{
  Object, NulldrvDev, nulldrv_cmd, nulldrv_desc_set, nulldrv_dev, nulldrv_desc_pool, Created,
  nulldrv_base_create,
}

-- `for (; n > 0; n--, j++) free(array[j]);`
unfoldable pub free_loop : (n j : ℕ) → List ℕ → Heap Object → Option (Heap Object)
free_loop zero j array heap = some heap
free_loop (suc n) j array heap =
    get_elem? array j >>= λ p. free heap p >>= λ heap'. free_loop n (j + 1) array heap'

-- The result, the array, and the memory.
abbrev pub Filled : Type 0
Filled = VkResult × List ℕ × Heap Object

-- The loop over `i`, with `n` rounds left; `num_allocated` is `i` throughout.
unfoldable pub cmd_loop : (gives : ℕ → Bool) → (n i : ℕ) → List ℕ → Heap Object → Option Filled
cmd_loop gives zero i cmd_ret heap = some (success, cmd_ret, heap)
cmd_loop gives (suc n) i cmd_ret heap =
    let (base, heap') = nulldrv_base_create gives nulldrv_cmd heap in
    elim base [
      | none ↦
          free_loop i 0 cmd_ret heap' >>= λ heap''. some (error_out_of_host_memory, cmd_ret, heap'')
      | some cmd ↦ write cmd_ret i cmd >>= λ cmd_ret'. cmd_loop gives n (i + 1) cmd_ret' heap'
    ]

unfoldable pub nulldrv_cmd_create :
    (gives : ℕ → Bool) → (command_buffer_count : ℕ) → List ℕ → Heap Object → Option Filled
nulldrv_cmd_create gives command_buffer_count cmd_ret heap =
    cmd_loop gives command_buffer_count 0 cmd_ret heap

unfoldable pub allocate_command_buffers :
    (gives : ℕ → Bool) → (command_buffer_count : ℕ) → List ℕ → Heap Object → Option Filled
allocate_command_buffers gives command_buffer_count command_buffers heap =
    nulldrv_cmd_create gives command_buffer_count command_buffers heap

unfoldable pub free_command_buffers : (count : ℕ) → List ℕ → Heap Object → Option (Heap Object)
free_command_buffers count command_buffers heap = free_loop count 0 command_buffers heap

-- `dev->desc_ooxx`
unfoldable pub desc_ooxx_of : Heap Object → (dev : ℕ) → Option ℕ
desc_ooxx_of heap dev =
    load heap dev >>= λ object. elim object [ nulldrv_dev d ↦ some d.desc_ooxx | _ ↦ none ]

-- `pool->dev`
unfoldable pub device_of_pool : Heap Object → (pool : ℕ) → Option ℕ
device_of_pool heap pool =
    load heap pool >>= λ object. elim object [ nulldrv_desc_pool dev ↦ some dev | _ ↦ none ]

unfoldable pub nulldrv_desc_set_create :
    (gives : ℕ → Bool) → (dev layout : ℕ) → Heap Object → Option Created
nulldrv_desc_set_create gives dev layout heap =
    let (base, heap') = nulldrv_base_create gives (nulldrv_desc_set 0 0) heap in
    elim base [
      | none ↦ some (error_out_of_host_memory, none, heap')
      | some p ↦ desc_ooxx_of heap' dev >>= λ ooxx.
          store heap' p (nulldrv_desc_set ooxx layout) >>= λ heap''. some (success, some p, heap'')
    ]

-- The loop over `i`, with `n` rounds left, and its `break`.
unfoldable pub sets_loop :
    (gives : ℕ → Bool)
    → (dev : ℕ) → (set_layouts : List ℕ) → (n i : ℕ) → List ℕ
    → Heap Object
    → Option Filled
sets_loop gives dev set_layouts zero i sets heap = some (success, sets, heap)
sets_loop gives dev set_layouts (suc n) i sets heap = get_elem? set_layouts i >>= λ layout.
    nulldrv_desc_set_create gives dev layout heap >>= λ (ret, made, heap'). elim made [
      | none ↦ some (ret, sets, heap')
      | some p ↦ write sets i p >>= λ sets'. sets_loop gives dev set_layouts n (i + 1) sets' heap'
    ]

unfoldable pub allocate_descriptor_sets :
    (gives : ℕ → Bool)
    → (descriptor_pool descriptor_set_count : ℕ) → (set_layouts : List ℕ) → List ℕ
    → Heap Object
    → Option Filled
allocate_descriptor_sets gives descriptor_pool descriptor_set_count set_layouts sets heap =
    device_of_pool heap descriptor_pool >>= λ dev.
    sets_loop gives dev set_layouts descriptor_set_count 0 sets heap
