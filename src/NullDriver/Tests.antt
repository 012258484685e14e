-- ===== src/NullDriver/Tests.antt =====
-- Runs of null-driver/null-driver.c, alone and below the layer. A function stands at the address
-- that is the length of its name and one.
use vulkan_wsi_tizen.Common.{
  ℕ, ◌+◌, ◌≡◌, ◌⊎◌, refl, Bool, true, not, Option, none, some, List, [], ◌∷◌, ◌++◌, arith, length,
  get_elem?, replicate, ◌==◌, if◌then◌else◌, ap, ◌∙◌, sym, length-replicate,
}
use Prim.Native.String.{String, len}
use vulkan_wsi_tizen.Enumerate.Results.{VkResult, success}
use vulkan_wsi_tizen.Enumerate.Copy.{Enumerates}
use vulkan_wsi_tizen.Extensions.{ExtensionProperties, vk_enumerate_instance_extension_properties}
use vulkan_wsi_tizen.Display.Samples.{
  sample_tdm, calloc, blank_device, blank-HasArrays, gives_modes, counts_fit,
}
use vulkan_wsi_tizen.EntryPoints.{
  entry_points, find_entry, get_entry_point, vk_get_instance_proc_addr, vk_get_device_proc_addr,
  vk_icd_get_instance_proc_addr,
}
use vulkan_wsi_tizen.IcdLoader.{Statics, Loader, module_init, wsi_instance_extensions}
use vulkan_wsi_tizen.NullDriver.Tables.{NulldrvEntry, global_funcs, instance_funcs, device_funcs}
use vulkan_wsi_tizen.NullDriver.Lookup.{vk_icd_get_instance_proc_addr as null_icd_proc_addr}
use vulkan_wsi_tizen.NullDriver.Lookup.Answers.{all_funcs, is_global, is_device}
use vulkan_wsi_tizen.NullDriver.Layered.{
  Linked, func_address, null_icd, driver_proc, layered-answers,
}
use vulkan_wsi_tizen.NullDriver.Loaded.{LoadsNull, null_driver-Loaded}
use vulkan_wsi_tizen.NullDriver.Enumerations.{
  instance_extensions, enumerate_instance_extension_properties,
}
use vulkan_wsi_tizen.NullDriver.Heap.{Heap, load, IsHeap}
use vulkan_wsi_tizen.NullDriver.Objects.{
  Object, NulldrvDev, nulldrv_dev, nulldrv_desc_pool, nulldrv_desc_ooxx, Created, nulldrv_bo,
}
use vulkan_wsi_tizen.NullDriver.Objects.Calls.{
  Call, create_fence_call, create_buffer_call, allocate_memory_call, run_call,
}
use vulkan_wsi_tizen.NullDriver.Objects.Promises.{Keeps}
use vulkan_wsi_tizen.NullDriver.Objects.Sequence.{run_calls, Handed, run_calls-Handed}
use vulkan_wsi_tizen.NullDriver.Commands.{
  allocate_command_buffers, free_command_buffers, allocate_descriptor_sets, Filled,
}
use vulkan_wsi_tizen.NullDriver.Commands.Buffers.{
  Allocated, Refused, allocate_command_buffers-Outcome,
}
use vulkan_wsi_tizen.NullDriver.Commands.Sets.{Sets, allocate_descriptor_sets-Sets}
use vulkan_wsi_tizen.NullDriver.Device.{DeviceCreateInfo, create_device}
use vulkan_wsi_tizen.NullDriver.Device.Creation.{Ends, create_device-Ends}
use vulkan_wsi_tizen.NullDriver.Memory.{
  MemoryRequirements, get_buffer_memory_requirements, map_memory, buffer_memory,
}

program : Unit {0}
unfolding entry_points find_entry get_entry_point global_funcs instance_funcs device_funcs load
program = tt

abbrev address_of : String → ℕ
address_of func = len func + 1

linked : Linked address_of
linked = record { there = λ func. omega arith; apart = omega arith }

abbrev draw : NulldrvEntry
draw = record { name = "vkCmdDraw"; func = "cmd_draw" }

draw_listed : get_elem? all_funcs 107 ≡ some draw
unfolding program
draw_listed = refl

draw_absent : get_entry_point draw.name ≡ none
unfolding program
draw_absent = refl

layered-answers_example :
    (vk_get_instance_proc_addr (null_icd address_of (λ f h n. 0)) 7 "vkCmdDraw"
      ≡ some (driver_proc address_of (if is_global 107 then 7 == 0 else not (7 == 0)) draw))
    × (vk_get_device_proc_addr (null_icd address_of (λ f h n. 0)) 5 "vkCmdDraw"
        ≡ some (driver_proc address_of (is_device 107) draw))
    × (vk_icd_get_instance_proc_addr (null_icd address_of (λ f h n. 0)) 7 "vkCmdDraw"
        ≡ driver_proc address_of true draw)
layered-answers_example =
    layered-answers linked (λ f h n. 0) 107 draw 7 5 draw_listed draw_absent (omega arith)

abbrev blank_extension : ExtensionProperties
blank_extension = record { extension_name = ""; spec_version = 0 }

abbrev loader : Loader
loader = record {
  getenv = some "libnull.so";
  dlopen = λ filename. 1;
  dlsym = λ lib name. address_of name;
  call_get_proc_addr = λ f handle name. func_address address_of (null_icd_proc_addr handle name);
  call_enum_inst_exts = λ f. enumerate_instance_extension_properties;
  malloc = λ n. some (replicate n blank_extension);
}

replicate-sizes :
    (n : ℕ) (block : List ExtensionProperties)
    → some (replicate n blank_extension) ≡ some block
    → length block ≡ n
replicate-sizes n block e =
    let same : replicate n blank_extension ≡ block = cc e in
    ap (λ (xs : List ExtensionProperties). length xs) (sym same)
    ∙ length-replicate n blank_extension

loads : LoadsNull address_of loader
loads = record {
  exported = λ lib. refl;
  looks_up = λ handle name. refl;
  enumerates = refl;
  sizes = replicate-sizes;
}

abbrev statics : Statics
statics = record {
  icd = record {
    lib = 0;
    get_proc_addr = 0;
    enum_dev_exts = 0;
    extensions = record { instance_extension_count = 0; instance_extensions = [] };
    create_presentable_image = 0;
    queue_signal_release_image = 0;
    acquire_image = 0;
  };
  pdev = 0;
  device = blank_device;
}

null_driver-Loaded_example :
    (s' : Statics) × (module_init loader 99 (sample_tdm 2) calloc statics ≡ some s')
    × Enumerates
        (instance_extensions ++ wsi_instance_extensions)
        (vk_enumerate_instance_extension_properties (s'.icd.extensions))
    × (s'.icd.create_presentable_image ≡ address_of "create_image_from_native_buffer_TIZEN")
    × (s'.icd.queue_signal_release_image ≡ 0)
    × (s'.icd.acquire_image ≡ 0)
null_driver-Loaded_example =
    null_driver-Loaded linked loads "libnull.so" (replicate 3 blank_extension) refl (omega arith)
      refl 99 (sample_tdm 2) calloc statics blank-HasArrays gives_modes (counts_fit.0)
      (counts_fit.1)

-- The third call of `malloc` fails.
abbrev gives : ℕ → Bool
gives n = not (n == 2)

abbrev dev_object : NulldrvDev
dev_object = record { exts = true ∷ []; desc_ooxx = 2; queues = 0 ∷ [] }

abbrev heap : Heap Object
heap = record {
  attempts = 0;
  blocks =
      none
      ∷ some (nulldrv_dev dev_object)
      ∷ some nulldrv_desc_ooxx
      ∷ some (nulldrv_desc_pool 1)
      ∷ [];
}

heap-IsHeap : IsHeap heap
unfolding program
heap-IsHeap = record { null_is = refl; has_null = omega arith }

abbrev calls : List Call
calls =
    create_fence_call ∷ allocate_memory_call 64 ∷ create_buffer_call 64 1 ∷ create_fence_call ∷ []

run_calls-Handed_example :
    (answers : List (Call × VkResult × Option ℕ)) × (heap' : Heap Object) × (run_calls gives calls
        heap
      ≡ some (answers, heap'))
    × Handed gives heap heap' [] answers
    × Keeps heap heap'
run_calls-Handed_example = run_calls-Handed gives calls heap heap-IsHeap

allocate_command_buffers-Outcome_example :
    (out : Filled) × (allocate_command_buffers gives 2 (0 ∷ 0 ∷ 0 ∷ []) heap ≡ some out)
    × (Allocated heap 2 out
          × ((heap' : Heap Object) × (free_command_buffers 2 out.1 out.2 ≡ some heap')
              × ((q : ℕ) → load heap' q ≡ load heap q))
        ⊎ Refused gives heap out)
allocate_command_buffers-Outcome_example =
    allocate_command_buffers-Outcome gives 2 (0 ∷ 0 ∷ 0 ∷ []) heap heap-IsHeap (omega arith)

pool_live :
    (load heap 3 ≡ some (nulldrv_desc_pool 1)) × (load heap 1 ≡ some (nulldrv_dev dev_object))
unfolding program
pool_live = (refl, refl)

allocate_descriptor_sets-Sets_example :
    (out : Filled) × (allocate_descriptor_sets gives 3 3 (11 ∷ 12 ∷ 13 ∷ []) (0 ∷ 0 ∷ 0 ∷ []) heap
      ≡ some out)
    × Sets gives 2 (11 ∷ 12 ∷ 13 ∷ []) heap 0 3 out
allocate_descriptor_sets-Sets_example =
    allocate_descriptor_sets-Sets gives 3 1 3 dev_object (11 ∷ 12 ∷ 13 ∷ []) (0 ∷ 0 ∷ 0 ∷ []) heap
      (pool_live.0) (pool_live.1) (omega arith) (omega arith)

abbrev info : DeviceCreateInfo
info = record {
  enabled_extension_names = "VK_KHR_swapchain" ∷ [];
  queue_create_infos = record { queue_family_index = 0; queue_count = 1 } ∷ [];
}

create_device-Ends_example :
    (out : Created) × (create_device gives info heap ≡ some out)
    × Ends gives info heap out
    × Keeps heap out.2
create_device-Ends_example = create_device-Ends gives info heap refl

abbrev always : ℕ → Bool
always n = true

buffer_memory_example :
    (buffer : ℕ) × (h1 : Heap Object) × (run_call always (create_buffer_call 64 1) heap
      ≡ some (success, some buffer, h1))
    × (r : MemoryRequirements) × (get_buffer_memory_requirements h1 buffer ≡ some r)
    × (r.size ≡ 64)
    × (memory : ℕ) × (h2 : Heap Object) × (run_call always (allocate_memory_call r.size) h1
        ≡ some (success, some memory, h2))
    × (get_buffer_memory_requirements h2 buffer ≡ some r)
    × (bo : ℕ) × (map_memory h2 memory ≡ some (bo, true))
    × (load h2 bo ≡ some (nulldrv_bo 64))
buffer_memory_example = buffer_memory always (λ n. refl) 64 1 heap
