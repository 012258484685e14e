-- ===== src/TdmBackend/LifecycleTests.antt =====
-- The set-up and the end of src/wsi/swapchain_tdm.c at a concrete input.
use vulkan_wsi_tizen.Common.{◌≡◌, refl, true, none, some, [], ◌∷◌, ◌++◌, ◌==◌, if◌then◌else◌}
use vulkan_wsi_tizen.Enumerate.Results.{success, error_surface_lost_khr}
use vulkan_wsi_tizen.Formats.{tbm_argb8888}
use vulkan_wsi_tizen.TdmBackend.SetUp.{
  SetUpAnswers, TdmInfo, TdmData, dpms_on, dpms_off, blank_data, swapchain_tdm_init,
  swapchain_tdm_get_buffers, swapchain_tdm_deinit, alloc_backend, queue_create, init_locks,
  alloc_buffers, dequeue, dequeue_loop, release_loop, calls_of,
}
use vulkan_wsi_tizen.TdmBackend.Lifecycle.{Life, deinit-Life}
use vulkan_wsi_tizen.TdmBackend.Effects.{effects}

-- The second buffer cannot be dequeued, and the display is on.
abbrev one_buffer : SetUpAnswers
one_buffer = record {
  has_memory = true;
  queue_create = true;
  queue_size = 2;
  has_buffer_memory = true;
  dequeue = λ i. if i == 0 then some 7 else none;
  release = λ i. true;
  get_dpms = some dpms_on;
  set_dpms = true;
  set_mode = true;
  surface_info = λ b. record { width = 640; height = 480; format = 1; stride = 2560 };
  set_layer_info = true;
}

abbrev tdm_info : TdmInfo
tdm_info = record { width = 640; height = 480; min_image_count = 2; plane_index = 0; tdm_mode = 3 }

abbrev tdm_data : TdmData
tdm_data = record (blank_data 9) { tdm_mode = 3; tdm_dpms = dpms_off; has_queue = true }

started :
    swapchain_tdm_init one_buffer (9 ∷ []) tdm_info tbm_argb8888
    ≡ some (
      success,
      true,
      some tdm_data,
      alloc_backend ∷ queue_create 2 640 480 tbm_argb8888 ∷ init_locks ∷ [],
    )
unfolding swapchain_tdm_init
started = refl

given_up :
    swapchain_tdm_get_buffers one_buffer tdm_data
    ≡ some (
      error_surface_lost_khr,
      none,
      record tdm_data { buffers = some (7 ∷ []) },
      alloc_buffers ∷ dequeue 7 ∷ [],
    )
unfolding swapchain_tdm_get_buffers dequeue_loop release_loop calls_of
given_up = refl

deinit-Life_example : Life one_buffer tdm_info tbm_argb8888 none (
    effects (
      (alloc_backend ∷ queue_create 2 640 480 tbm_argb8888 ∷ init_locks ∷ [])
      ++ ((alloc_buffers ∷ dequeue 7 ∷ [])
          ++ swapchain_tdm_deinit (some (record tdm_data { buffers = some (7 ∷ []) })))))
deinit-Life_example =
    deinit-Life one_buffer (9 ∷ []) tdm_info tbm_argb8888 true tdm_data
      (record tdm_data { buffers = some (7 ∷ []) }) error_surface_lost_khr none
      (alloc_backend ∷ queue_create 2 640 480 tbm_argb8888 ∷ init_locks ∷ [])
      (alloc_buffers ∷ dequeue 7 ∷ []) started given_up
