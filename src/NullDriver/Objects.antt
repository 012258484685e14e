-- ===== src/NullDriver/Objects.antt =====
-- The objects of null-driver/null-driver.c and the functions that create one. `gives` says which calls
-- of `malloc` succeed. Of an `info` a function has the fields that the source reads. No function that
-- destroys an object of these frees anything.
pub mod Calls
pub mod Promises
pub mod Creation
pub mod Sequence
use vulkan_wsi_tizen.Common.{
  ℕ, ◌-◌, ◌^◌, Bool, false, Option, none, some, List, [], ◌∷◌, ◌==◌, if◌then◌else◌, ◌>>=◌, ◌∷◌,
}
use vulkan_wsi_tizen.Enumerate.Results.{VkResult, success, error_out_of_host_memory}
use vulkan_wsi_tizen.NullDriver.Heap.{Heap, malloc, load, store}

pub record NulldrvImg : Type 0 where
  pub tbm_surface : ℕ
  pub type : ℕ
  pub depth : ℕ
  pub mip_levels : ℕ
  pub array_size : ℕ
  pub usage : ℕ
  pub samples : ℕ
  pub total_size : ℕ

-- `exts` and `queues` have one element.
pub record NulldrvDev : Type 0 where
  pub exts : List Bool
  pub desc_ooxx : ℕ
  pub queues : List ℕ

pub data Object : Type 0 where
  nulldrv_instance nulldrv_gpu nulldrv_fence nulldrv_sampler nulldrv_desc_layout : Object
  nulldrv_pipeline_layout nulldrv_pipeline nulldrv_cmd nulldrv_framebuffer : Object
  nulldrv_render_pass nulldrv_shader_module nulldrv_desc_ooxx : Object
  nulldrv_dev : NulldrvDev → Object
  nulldrv_queue : (dev : ℕ) → Object
  nulldrv_img : NulldrvImg → Object
  nulldrv_bo : (size : ℕ) → Object
  nulldrv_mem : (bo size : ℕ) → Object
  nulldrv_img_view : (img cmd_len : ℕ) → Object
  nulldrv_buf : (size usage : ℕ) → Object
  nulldrv_desc_pool : (dev : ℕ) → Object
  nulldrv_desc_set : (ooxx layout : ℕ) → Object
  nulldrv_buf_view : (buf : ℕ) → Object

-- The result, what is stored through the pointer to it, if anything is, and the memory.
abbrev pub Created : Type 0
Created = VkResult × Option ℕ × Heap Object

-- `VkImageCreateInfo`, the fields that are read.
pub record ImageCreateInfo : Type 0 where
  pub image_type : ℕ
  pub extent_depth : ℕ
  pub mip_levels : ℕ
  pub array_layers : ℕ
  pub usage : ℕ
  pub samples : ℕ

module _ (gives : ℕ → Bool) where
  -- The block, zeroed, with the fields that the caller sets next.
  unfoldable pub nulldrv_base_create : Object → Heap Object → Option ℕ × Heap Object
  nulldrv_base_create object heap = malloc gives object heap

  -- What the functions below share.
  unfoldable pub base_create_or_fail : Object → Heap Object → Created
  base_create_or_fail object heap =
      let (base, heap') = nulldrv_base_create object heap in
      elim base [
        | none ↦ (error_out_of_host_memory, none, heap')
        | some p ↦ (success, some p, heap')
      ]

  unfoldable pub nulldrv_gpu_add : Heap Object → Created
  nulldrv_gpu_add heap =
      let (block, heap') = malloc gives nulldrv_gpu heap in
      elim block [
        | none ↦ (error_out_of_host_memory, none, heap')
        | some gpu ↦ (success, some gpu, heap')
      ]

  unfoldable pub nulldrv_queue_create : (dev : ℕ) → Heap Object → Created
  nulldrv_queue_create dev heap = base_create_or_fail (nulldrv_queue dev) heap

  unfoldable pub nulldrv_fence_create : Heap Object → Created
  nulldrv_fence_create heap = base_create_or_fail nulldrv_fence heap

  unfoldable pub nulldrv_img_create : (tbm_surface : ℕ) → ImageCreateInfo → Heap Object → Created
  nulldrv_img_create tbm_surface info heap =
      base_create_or_fail
        (nulldrv_img (record {
          tbm_surface = tbm_surface;
          type = info.image_type;
          depth = info.extent_depth;
          mip_levels = info.mip_levels;
          array_size = info.array_layers;
          usage = info.usage;
          samples = info.samples;
          total_size = 0;
        }))
        heap

  -- The store behind the object at `mem`. A failure does not free that object.
  unfoldable pub alloc_bo : (allocation_size mem : ℕ) → Heap Object → Option Created
  alloc_bo allocation_size mem heap =
      let (block, heap') = malloc gives (nulldrv_bo allocation_size) heap in
      elim block [
        | none ↦ some (error_out_of_host_memory, none, heap')
        | some bo ↦ store heap' mem (nulldrv_mem bo allocation_size) >>= λ heap''.
            some (success, some mem, heap'')
      ]

  unfoldable pub nulldrv_mem_alloc : (allocation_size : ℕ) → Heap Object → Option Created
  nulldrv_mem_alloc allocation_size heap =
      let (base, heap') = nulldrv_base_create (nulldrv_mem 0 0) heap in
      elim base [
        | none ↦ some (error_out_of_host_memory, none, heap')
        | some mem ↦ alloc_bo allocation_size mem heap'
      ]

  unfoldable pub nulldrv_sampler_create : Heap Object → Created
  nulldrv_sampler_create heap = base_create_or_fail nulldrv_sampler heap

  unfoldable pub nulldrv_img_view_create : (image : ℕ) → Heap Object → Created
  nulldrv_img_view_create image heap = base_create_or_fail (nulldrv_img_view image 8) heap

  unfoldable pub nulldrv_buf_create : (size usage : ℕ) → Heap Object → Created
  nulldrv_buf_create size usage heap = base_create_or_fail (nulldrv_buf size usage) heap

  unfoldable pub nulldrv_desc_layout_create : Heap Object → Created
  nulldrv_desc_layout_create heap = base_create_or_fail nulldrv_desc_layout heap

  unfoldable pub nulldrv_pipeline_layout_create : Heap Object → Created
  nulldrv_pipeline_layout_create heap = base_create_or_fail nulldrv_pipeline_layout heap

  unfoldable pub graphics_pipeline_create : Heap Object → Created
  graphics_pipeline_create heap = base_create_or_fail nulldrv_pipeline heap

  unfoldable pub nulldrv_desc_pool_create : (dev : ℕ) → Heap Object → Created
  nulldrv_desc_pool_create dev heap = base_create_or_fail (nulldrv_desc_pool dev) heap

  unfoldable pub nulldrv_fb_create : Heap Object → Created
  nulldrv_fb_create heap = base_create_or_fail nulldrv_framebuffer heap

  unfoldable pub nulldrv_render_pass_create : Heap Object → Created
  nulldrv_render_pass_create heap = base_create_or_fail nulldrv_render_pass heap

  unfoldable pub nulldrv_buf_view_create : (buffer : ℕ) → Heap Object → Created
  nulldrv_buf_view_create buffer heap = base_create_or_fail (nulldrv_buf_view buffer) heap

  unfoldable pub create_shader_module : Heap Object → Created
  create_shader_module heap = base_create_or_fail nulldrv_shader_module heap

  unfoldable pub create_instance : Heap Object → Created
  create_instance heap = base_create_or_fail nulldrv_instance heap

  -- The count of the caller is overwritten and not read; the second component is what is written to
  -- the array, if there is one.
  unfoldable pub enumerate_physical_devices :
      (has_gpus : Bool) → Heap Object → ℕ × VkResult × Option ℕ × Heap Object
  enumerate_physical_devices has_gpus heap =
      let (ret, gpu, heap') = nulldrv_gpu_add heap in
      (1, ret, (if has_gpus then gpu else none), heap')
