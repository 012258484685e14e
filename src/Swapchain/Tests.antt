-- ===== src/Swapchain/Tests.antt =====
-- A swapchain of src/wsi/swapchain.c with two buffers.
use vulkan_wsi_tizen.Common.{
  ℕ, ◌+◌, ◌≡◌, Bool, true, none, some, [], ◌∷◌, map, arith, ltb, drop, ◌++◌, if◌then◌else◌, refl,
}
use vulkan_wsi_tizen.Enumerate.Results.{VkResult, success, error_device_lost, timeout}
use vulkan_wsi_tizen.Formats.{vk_format_b8g8r8a8_unorm, opaque, get_tbm_format}
use vulkan_wsi_tizen.Surface.{wayland}
use vulkan_wsi_tizen.Swapchain.{
  Swapchain, CreateInfo, Environment, vk_create_swapchain_khr, vk_acquire_next_image_khr, Acquired,
  Presented, vk_queue_present_khr, vk_destroy_swapchain_khr, alloc_chain, alloc_buffers,
  create_image, handle, image_after, create_backend, create_buffers, image_loop, is_known_platform,
}
use vulkan_wsi_tizen.Swapchain.Create.{Outcome, chain_of, vk_create_swapchain_khr-Outcome}
use vulkan_wsi_tizen.Swapchain.Images.{Outcome as AcquireOutcome, vk_acquire_next_image_khr-Outcome}
use vulkan_wsi_tizen.Swapchain.Present.{Request, presented, answers, vk_queue_present_khr-answers}
use vulkan_wsi_tizen.Swapchain.Destroy.{GivesBack, destroy-create}

abbrev environment : Environment
environment = record {
  init = λ surface format. (success, true);
  get_buffers = (success, 7 ∷ 8 ∷ []);
  create_presentable_image = some (λ tbm. if ltb tbm 8 then some (tbm + 100) else none);
  unset_image = λ i. 900 + i;
  has_chain_memory = true;
  has_buffer_memory = λ n. true;
}

abbrev info : CreateInfo
info = record {
  surface = wayland 1 2;
  image_format = vk_format_b8g8r8a8_unorm;
  composite_alpha = opaque;
}

vk_create_swapchain_khr-Outcome_example :
    Outcome environment info (vk_create_swapchain_khr environment info)
vk_create_swapchain_khr-Outcome_example = vk_create_swapchain_khr-Outcome environment info

abbrev chain : Swapchain
chain = chain_of environment (wayland 1 2)

made :
    vk_create_swapchain_khr environment info
    ≡ some
        (success, handle chain, alloc_chain ∷ alloc_buffers ∷ create_image 7 ∷ create_image 8 ∷ [])
unfolding vk_create_swapchain_khr image_after create_backend create_buffers image_loop
    is_known_platform get_tbm_format
made = refl

destroy-create_example :
    GivesBack environment
      (alloc_chain ∷ alloc_buffers ∷ create_image 7 ∷ create_image 8 ∷ [])
      (vk_destroy_swapchain_khr true chain)
destroy-create_example =
    destroy-create environment info success chain
      (alloc_chain ∷ alloc_buffers ∷ create_image 7 ∷ create_image 8 ∷ []) made

abbrev second : ℕ → Bool → VkResult × ℕ × ℕ
second limit has = (success, 8, 33)

vk_acquire_next_image_khr-Outcome_example :
    (r : Acquired) × (vk_acquire_next_image_khr true second chain 1000 ≡ some r)
    × AcquireOutcome true chain success 8 33 r
vk_acquire_next_image_khr-Outcome_example =
    vk_acquire_next_image_khr-Outcome true second chain 1000 (omega arith)

abbrev request : Request
request = record { chain = chain; index = 1; buffer = record { tbm = 8; image = 901 }; at = refl }

abbrev answer : ℕ → Presented → VkResult
answer i p = if ltb i 1 then error_device_lost else success

vk_queue_present_khr-answers_example :
    vk_queue_present_khr
      (some (λ image. some (image + 1)))
      answer
      2
      (chain ∷ chain ∷ [])
      (1 ∷ 1 ∷ [])
      (some (timeout ∷ timeout ∷ timeout ∷ []))
    ≡ some (
      success,
      map (presented (some (λ image. some (image + 1))) answer) (request ∷ request ∷ []),
      some (
          answers (some (λ image. some (image + 1))) answer 0 (request ∷ request ∷ [])
          ++ drop 2 (timeout ∷ timeout ∷ timeout ∷ [])),
    )
vk_queue_present_khr-answers_example =
    vk_queue_present_khr-answers (some (λ image. some (image + 1))) answer (request ∷ request ∷ [])
      (timeout ∷ timeout ∷ timeout ∷ []) (omega arith)
