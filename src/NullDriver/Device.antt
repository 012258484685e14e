-- ===== src/NullDriver/Device.antt =====
-- The devices of null-driver/null-driver.c, with their extensions and their queue.
pub mod States
pub mod Queues
pub mod Creation
use vulkan_wsi_tizen.Common.{
  ℕ, ◌+◌, Bool, true, false, Option, none, some, List, [], ◌∷◌, get_elem?, ◌==◌, if◌then◌else◌,
  ◌>>=◌,
}
use Prim.Native.String.{String}
use text.Mathlib.Text.{◌==◌ as str_eq}
use vulkan_wsi_tizen.Enumerate.{write}
use vulkan_wsi_tizen.Enumerate.Results.{
  VkResult, success, error_out_of_host_memory, error_extension_not_present, is_success,
}
use vulkan_wsi_tizen.Extensions.{ExtensionProperties}
use vulkan_wsi_tizen.NullDriver.Heap.{Heap, malloc, load, store}
use vulkan_wsi_tizen.NullDriver.Enumerations.{device_extensions, nulldrv_ext_count}
use vulkan_wsi_tizen.NullDriver.Objects.{
  Object, NulldrvDev, nulldrv_dev, nulldrv_desc_ooxx, Created, nulldrv_base_create,
  nulldrv_queue_create,
}

-- `VkDeviceQueueCreateInfo`, the fields that are read.
pub record DeviceQueueCreateInfo : Type 0 where
  pub queue_family_index : ℕ
  pub queue_count : ℕ

-- `VkDeviceCreateInfo`, likewise.
pub record DeviceCreateInfo : Type 0 where
  pub enabled_extension_names : List String
  pub queue_create_infos : List DeviceQueueCreateInfo

unfoldable pub lookup_loop : String → List ExtensionProperties → (type : ℕ) → ℕ
lookup_loop name [] type = type
lookup_loop name (e ∷ extensions) type =
    if str_eq e.extension_name name then type else lookup_loop name extensions (type + 1)

unfoldable pub nulldrv_gpu_lookup_extension : String → ℕ
nulldrv_gpu_lookup_extension name = lookup_loop name device_extensions 0

-- The device object at an address.
unfoldable pub dev_at : Heap Object → (dev : ℕ) → Option NulldrvDev
dev_at heap dev = load heap dev >>= λ object. elim object [ nulldrv_dev d ↦ some d | _ ↦ none ]

-- `dev->exts[ext] = true`
unfoldable pub set_ext : (dev ext : ℕ) → Heap Object → Option (Heap Object)
set_ext dev ext heap = dev_at heap dev >>= λ d.
    write d.exts ext true >>= λ exts. store heap dev (nulldrv_dev (record d { exts = exts }))

-- The loop over the names of `nulldrv_dev_create`; `false` for its return.
unfoldable pub enable_loop : List String → (dev : ℕ) → Heap Object → Option (Bool × Heap Object)
enable_loop [] dev heap = some (true, heap)
enable_loop (name ∷ names) dev heap =
    let ext = nulldrv_gpu_lookup_extension name in
    if ext == nulldrv_ext_count
    then some (false, heap)
    else (set_ext dev ext heap >>= λ heap'. enable_loop names dev heap')

module _ (gives : ℕ → Bool) where
  -- `&dev->desc_ooxx` is where the address is stored.
  unfoldable pub nulldrv_desc_ooxx_create :
      (dev : ℕ) → Heap Object → Option (VkResult × Heap Object)
  nulldrv_desc_ooxx_create dev heap =
      let (block, heap') = malloc gives nulldrv_desc_ooxx heap in
      elim block [
        | none ↦ some (error_out_of_host_memory, heap')
        | some ooxx ↦ dev_at heap' dev >>= λ d.
            store heap' dev (nulldrv_dev (record d { desc_ooxx = ooxx })) >>= λ heap''.
            some (success, heap'')
      ]

  -- The queue of one round, stored at `&dev->queues[queue_family_index]`.
  unfoldable pub create_queue : (dev index : ℕ) → Heap Object → Option (VkResult × Heap Object)
  create_queue dev index heap =
      let (ret, made, heap') = nulldrv_queue_create gives dev heap in
      elim made [
        | none ↦ some (ret, heap')
        | some queue ↦ dev_at heap' dev >>= λ d. write d.queues index queue >>= λ queues.
            store heap' dev (nulldrv_dev (record d { queues = queues })) >>= λ heap''.
            some (ret, heap'')
      ]

  -- One round: the test, and the queue.
  unfoldable pub queue_round :
      (dev : ℕ) → DeviceQueueCreateInfo → Heap Object → Option (VkResult × Heap Object)
  queue_round dev q heap =
      if q.queue_count == 1
      then (dev_at heap dev >>= λ d. get_elem? d.queues q.queue_family_index >>= λ queue.
          if queue == 0 then create_queue dev q.queue_family_index heap else some (success, heap))
      else some (success, heap)

  unfoldable pub dev_create_queues :
      (dev : ℕ) → List DeviceQueueCreateInfo → Heap Object → Option (VkResult × Heap Object)
  dev_create_queues dev [] heap = some (success, heap)
  dev_create_queues dev (q ∷ queues) heap = queue_round dev q heap >>= λ (ret, heap').
      if is_success ret then dev_create_queues dev queues heap' else some (ret, heap')

  -- What follows the loop over the names.
  unfoldable pub finish_device :
      (dev : ℕ) → List DeviceQueueCreateInfo → Heap Object → Option Created
  finish_device dev queues heap = nulldrv_desc_ooxx_create dev heap >>= λ (ret, heap').
      if is_success ret
      then (dev_create_queues dev queues heap' >>= λ (ret', heap'').
          some (ret', (if is_success ret' then some dev else none), heap''))
      else some (ret, none, heap')

  -- No early return frees the device or what it has.
  unfoldable pub nulldrv_dev_create : DeviceCreateInfo → Heap Object → Option Created
  nulldrv_dev_create info heap =
      let blank = nulldrv_dev (record { exts = false ∷ []; desc_ooxx = 0; queues = 0 ∷ [] }) in
      let (base, heap') = nulldrv_base_create gives blank heap in
      elim base [
        | none ↦ some (error_out_of_host_memory, none, heap')
        | some dev ↦ enable_loop info.enabled_extension_names dev heap' >>= λ (known, heap'').
            if known
            then finish_device dev info.queue_create_infos heap''
            else some (error_extension_not_present, none, heap'')
      ]

  unfoldable pub create_device : DeviceCreateInfo → Heap Object → Option Created
  create_device info heap = nulldrv_dev_create info heap

-- The two indices are not read.
unfoldable pub get_device_queue : (device queue_node_index queue_index : ℕ) → Heap Object → Option ℕ
get_device_queue device queue_node_index queue_index heap =
    dev_at heap device >>= λ d. get_elem? d.queues 0
