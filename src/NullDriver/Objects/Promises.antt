-- ===== src/NullDriver/Objects/Promises.antt =====
-- What a creating entry point of null-driver/null-driver.c promises.
use vulkan_wsi_tizen.Common.{
  ℕ, ◌≤◌, ◌<◌, ◌≡◌, ◌≢◌, ap, Bool, true, false, Option, none, some, List, length, arith, ◌⊎◌,
}
use vulkan_wsi_tizen.Enumerate.Results.{success, error_out_of_host_memory}
use vulkan_wsi_tizen.NullDriver.Heap.{Heap, load, load-lt, Adds, HasFailure}
use vulkan_wsi_tizen.NullDriver.Objects.{
  Object, NulldrvImg, ImageCreateInfo, Created, nulldrv_instance, nulldrv_fence, nulldrv_sampler,
  nulldrv_desc_layout, nulldrv_pipeline_layout, nulldrv_pipeline, nulldrv_framebuffer,
  nulldrv_render_pass, nulldrv_shader_module, nulldrv_img, nulldrv_bo, nulldrv_mem,
  nulldrv_img_view, nulldrv_buf, nulldrv_desc_pool, nulldrv_buf_view,
}
use vulkan_wsi_tizen.NullDriver.Objects.Calls.{
  Call, create_fence_call, create_image_call, create_image_from_native_buffer_tizen_call,
  create_sampler_call, create_image_view_call, create_buffer_call, create_buffer_view_call,
  create_descriptor_set_layout_call, create_pipeline_layout_call, create_graphics_pipelines_call,
  create_descriptor_pool_call, create_framebuffer_call, create_render_pass_call,
  create_shader_module_call, create_instance_call, allocate_memory_call,
}

abbrev pub image_of : (surface : ℕ) → ImageCreateInfo → NulldrvImg
image_of surface info = record {
  tbm_surface = surface;
  type = info.image_type;
  depth = info.extent_depth;
  mip_levels = info.mip_levels;
  array_size = info.array_layers;
  usage = info.usage;
  samples = info.samples;
  total_size = 0;
}

-- That the block at `p` is the object that the call asks for. Memory is an object and its store.
abbrev pub Holds : Call → Heap Object → ℕ → Type 0
Holds (allocate_memory_call allocation_size) heap p =
    (bo : ℕ) × (bo ≢ 0)
    × (bo ≢ p)
    × (load heap p ≡ some (nulldrv_mem bo allocation_size))
    × (load heap bo ≡ some (nulldrv_bo allocation_size))
Holds create_fence_call heap p = load heap p ≡ some nulldrv_fence
Holds create_sampler_call heap p = load heap p ≡ some nulldrv_sampler
Holds (create_image_view_call image) heap p = load heap p ≡ some (nulldrv_img_view image 8)
Holds (create_buffer_call size usage) heap p = load heap p ≡ some (nulldrv_buf size usage)
Holds (create_buffer_view_call buffer) heap p = load heap p ≡ some (nulldrv_buf_view buffer)
Holds create_descriptor_set_layout_call heap p = load heap p ≡ some nulldrv_desc_layout
Holds create_pipeline_layout_call heap p = load heap p ≡ some nulldrv_pipeline_layout
Holds (create_graphics_pipelines_call create_info_count) heap p =
    load heap p ≡ some nulldrv_pipeline
Holds (create_descriptor_pool_call device) heap p = load heap p ≡ some (nulldrv_desc_pool device)
Holds create_framebuffer_call heap p = load heap p ≡ some nulldrv_framebuffer
Holds create_render_pass_call heap p = load heap p ≡ some nulldrv_render_pass
Holds create_shader_module_call heap p = load heap p ≡ some nulldrv_shader_module
Holds create_instance_call heap p = load heap p ≡ some nulldrv_instance
Holds (create_image_call info) heap p = load heap p ≡ some (nulldrv_img (image_of 0 info))
Holds (create_image_from_native_buffer_tizen_call surface info) heap p =
    load heap p ≡ some (nulldrv_img (image_of surface info))

abbrev pub is_memory : Call → Bool
is_memory (allocate_memory_call allocation_size) = true
is_memory _ = false

-- What is live stays so, with its content.
pub record Keeps (heap heap' : Heap Object) : Type 0 where
  pub loads : (q : ℕ) (a : Object) → load heap q ≡ some a → load heap' q ≡ some a
  pub grows : length heap.blocks ≤ length heap'.blocks

pub record Succeeds (c : Call) (heap : Heap Object) (out : Created) : Type 0 where
  pub result_is : out.0 ≡ success
  pub handle : ℕ
  pub handle_is : out.1 ≡ some handle
  pub is_new : length heap.blocks ≤ handle
  pub is_in : handle < length out.2.blocks
  pub holds : Holds c out.2 handle

pub record Fails (gives : ℕ → Bool) (c : Call) (heap : Heap Object) (out : Created) : Type 0 where
  pub result_is : out.0 ≡ error_out_of_host_memory
  pub nothing_is : out.1 ≡ none
  pub full : HasFailure gives
  pub blocks_is : is_memory c ≡ false → out.2.blocks ≡ heap.blocks

pub Adds-Keeps :
    (heap heap' : Heap Object) (p : ℕ) (a : Object) → Adds heap heap' p a → Keeps heap heap'
Adds-Keeps heap heap' p a adds = record {
  loads =
      λ q b found. let lt = load-lt heap q b found in ground (arith, adds.load_is q, adds.fresh_is);
  grows = omega (arith, adds.size_is);
}

pub same-Keeps : (heap heap' : Heap Object) → heap'.blocks ≡ heap.blocks → Keeps heap heap'
unfolding load
same-Keeps heap heap' same = record {
  loads = λ q b found. rw same found;
  grows = omega (arith, ap (λ (xs : List (Option Object)). length xs) same);
}

-- What a call leaves, on every branch.
abbrev pub Settles : (gives : ℕ → Bool) → Call → Heap Object → Created → Type 0
Settles gives c heap out = Keeps heap out.2 × (Succeeds c heap out ⊎ Fails gives c heap out)

pub Keeps-trans : (h1 h2 h3 : Heap Object) → Keeps h1 h2 → Keeps h2 h3 → Keeps h1 h3
Keeps-trans h1 h2 h3 k l = record {
  loads = λ q a found. l.loads q a (k.loads q a found);
  grows = omega (arith, k.grows, l.grows);
}
