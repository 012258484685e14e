-- ===== src/NullDriver/Objects/Calls.antt =====
-- The entry points of null-driver/null-driver.c that create one object.
use vulkan_wsi_tizen.Common.{ℕ, Bool, Option, some}
use vulkan_wsi_tizen.NullDriver.Heap.{Heap}
use vulkan_wsi_tizen.NullDriver.Objects.{
  Object, Created, ImageCreateInfo, nulldrv_fence_create, nulldrv_img_create, nulldrv_mem_alloc,
  nulldrv_sampler_create, nulldrv_img_view_create, nulldrv_buf_create, nulldrv_buf_view_create,
  nulldrv_desc_layout_create, nulldrv_pipeline_layout_create, graphics_pipeline_create,
  nulldrv_desc_pool_create, nulldrv_fb_create, nulldrv_render_pass_create, create_shader_module,
  create_instance,
}

module _ (gives : ℕ → Bool) where
  unfoldable pub create_fence : Heap Object → Created
  create_fence heap = nulldrv_fence_create gives heap

  unfoldable pub create_image : (info : ImageCreateInfo) → Heap Object → Created
  create_image info heap = nulldrv_img_create gives 0 info heap

  unfoldable pub create_image_from_native_buffer_tizen :
      (surface : ℕ) → (info : ImageCreateInfo) → Heap Object → Created
  create_image_from_native_buffer_tizen surface info heap =
      nulldrv_img_create gives surface info heap

  unfoldable pub create_sampler : Heap Object → Created
  create_sampler heap = nulldrv_sampler_create gives heap

  unfoldable pub create_image_view : (image : ℕ) → Heap Object → Created
  create_image_view image heap = nulldrv_img_view_create gives image heap

  unfoldable pub create_buffer : (size : ℕ) → (usage : ℕ) → Heap Object → Created
  create_buffer size usage heap = nulldrv_buf_create gives size usage heap

  unfoldable pub create_buffer_view : (buffer : ℕ) → Heap Object → Created
  create_buffer_view buffer heap = nulldrv_buf_view_create gives buffer heap

  unfoldable pub create_descriptor_set_layout : Heap Object → Created
  create_descriptor_set_layout heap = nulldrv_desc_layout_create gives heap

  unfoldable pub create_pipeline_layout : Heap Object → Created
  create_pipeline_layout heap = nulldrv_pipeline_layout_create gives heap

  -- One pipeline is created, whatever the count.
  unfoldable pub create_graphics_pipelines : (create_info_count : ℕ) → Heap Object → Created
  create_graphics_pipelines create_info_count heap = graphics_pipeline_create gives heap

  unfoldable pub create_descriptor_pool : (device : ℕ) → Heap Object → Created
  create_descriptor_pool device heap = nulldrv_desc_pool_create gives device heap

  unfoldable pub create_framebuffer : Heap Object → Created
  create_framebuffer heap = nulldrv_fb_create gives heap

  unfoldable pub create_render_pass : Heap Object → Created
  create_render_pass heap = nulldrv_render_pass_create gives heap

  unfoldable pub allocate_memory : (allocation_size : ℕ) → Heap Object → Option Created
  allocate_memory allocation_size heap = nulldrv_mem_alloc gives allocation_size heap

-- A call of one of these entry points, with what it reads of its arguments.
pub data Call : Type 0 where
  create_fence_call : Call
  create_image_call : (info : ImageCreateInfo) → Call
  create_image_from_native_buffer_tizen_call : (surface : ℕ) → (info : ImageCreateInfo) → Call
  create_sampler_call : Call
  create_image_view_call : (image : ℕ) → Call
  create_buffer_call : (size : ℕ) → (usage : ℕ) → Call
  create_buffer_view_call : (buffer : ℕ) → Call
  create_descriptor_set_layout_call : Call
  create_pipeline_layout_call : Call
  create_graphics_pipelines_call : (create_info_count : ℕ) → Call
  create_descriptor_pool_call : (device : ℕ) → Call
  create_framebuffer_call : Call
  create_render_pass_call : Call
  create_shader_module_call : Call
  create_instance_call : Call
  allocate_memory_call : (allocation_size : ℕ) → Call

unfoldable pub run_call : (gives : ℕ → Bool) → Call → Heap Object → Option Created
run_call gives create_fence_call heap = some (create_fence gives heap)
run_call gives (create_image_call info) heap = some (create_image gives info heap)
run_call gives (create_image_from_native_buffer_tizen_call surface info) heap =
    some (create_image_from_native_buffer_tizen gives surface info heap)
run_call gives create_sampler_call heap = some (create_sampler gives heap)
run_call gives (create_image_view_call image) heap = some (create_image_view gives image heap)
run_call gives (create_buffer_call size usage) heap = some (create_buffer gives size usage heap)
run_call gives (create_buffer_view_call buffer) heap = some (create_buffer_view gives buffer heap)
run_call gives create_descriptor_set_layout_call heap =
    some (create_descriptor_set_layout gives heap)
run_call gives create_pipeline_layout_call heap = some (create_pipeline_layout gives heap)
run_call gives (create_graphics_pipelines_call create_info_count) heap =
    some (create_graphics_pipelines gives create_info_count heap)
run_call gives (create_descriptor_pool_call device) heap =
    some (create_descriptor_pool gives device heap)
run_call gives create_framebuffer_call heap = some (create_framebuffer gives heap)
run_call gives create_render_pass_call heap = some (create_render_pass gives heap)
run_call gives create_shader_module_call heap = some (create_shader_module gives heap)
run_call gives create_instance_call heap = some (create_instance gives heap)
run_call gives (allocate_memory_call allocation_size) heap =
    allocate_memory gives allocation_size heap
