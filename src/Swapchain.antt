-- ===== src/Swapchain.antt =====
-- src/wsi/swapchain.c: swapchains over a backend. The backend, the driver and the memory are
-- parameters; handles and pointers are numbers.
pub mod Create
pub mod Destroy
pub mod Images
pub mod Present
mod Tests
use vulkan_wsi_tizen.Common.{
  ℕ, zero, suc, ◌+◌, Bool, true, false, Option, none, some, List, [], ◌∷◌, ◌++◌, length, get_elem?,
  min, ltb, ◌==◌, if◌then◌else◌, ◌>>=◌, map,
}
use vulkan_wsi_tizen.Enumerate.{Query, write, copy_loop}
use vulkan_wsi_tizen.Enumerate.Results.{
  VkResult, success, incomplete, error_out_of_host_memory, error_surface_lost_khr,
  error_extension_not_present, is_success,
}
use vulkan_wsi_tizen.Formats.{TbmFormat, VkFormat, CompositeAlpha, get_tbm_format}
use vulkan_wsi_tizen.Surface.{Surface, wayland, tbm_queue, display, other_platform}

-- `struct vk_buffer`
pub record Buffer : Type 0 where
  pub tbm : ℕ
  pub image : ℕ

-- `struct vk_swapchain`, without the functions and the data of the backend.
pub record Swapchain : Type 0 where
  pub surface : Surface
  pub buffer_count : ℕ
  pub buffers : List Buffer

-- What the driver and the memory are asked for.
pub data Event : Type 0 where
  alloc_chain free_chain deinit alloc_buffers free_buffers : Event
  create_image destroy_image : ℕ → Event

-- `*swapchain` after the call.
pub data Handle : Type 0 where
  untouched null : Handle
  handle : Swapchain → Handle

-- The parts of `VkSwapchainCreateInfoKHR` that are looked at.
pub record CreateInfo : Type 0 where
  pub surface : Surface
  pub image_format : VkFormat
  pub composite_alpha : CompositeAlpha

-- A backend. `init` says whether it has set `chain->deinit`; `get_buffers` gives the buffers. The
-- image for a buffer and the memory for the swapchain and its buffers are the driver's and the
-- allocator's: `create_presentable_image` is `none` if the pointer to it is `NULL`, and it gives
-- `none` for a buffer if it fails and sets no image. `unset_image` is what the array that was
-- allocated happens to hold as the image with an index.
pub record Environment : Type 0 where
  pub init : Surface → TbmFormat → VkResult × Bool
  pub get_buffers : VkResult × List ℕ
  pub create_presentable_image : Option (ℕ → Option ℕ)
  pub unset_image : ℕ → ℕ
  pub has_chain_memory : Bool
  pub has_buffer_memory : ℕ → Bool

abbrev pub Created : Type 0
Created = VkResult × Handle × List Event

unfoldable pub is_known_platform : Surface → Bool
is_known_platform (tbm_queue b q) = true
is_known_platform (wayland d s) = true
is_known_platform (display sfc) = true
is_known_platform other_platform = false

-- What the label `done` does on an error; the events so far come first.
unfoldable pub fail : VkResult → (has_deinit : Bool) → List Event → Created
fail error has_deinit events =
    (error, null, events ++ ((if has_deinit then deinit ∷ [] else []) ++ free_chain ∷ []))

-- `chain->buffers[i].image` after the call for it, whose result is not looked at.
unfoldable pub image_after : (unset : ℕ) → Option ℕ → ℕ
image_after unset none = unset
image_after unset (some image) = image

-- The loop over the buffers from index `i`; a call through `NULL` is a fault.
unfoldable pub image_loop :
    (create : Option (ℕ → Option ℕ)) (unset : ℕ → ℕ) (i : ℕ)
    → List ℕ
    → Option (List Buffer × List Event)
image_loop create unset i [] = some ([], [])
image_loop none unset i (tbm ∷ tbms) = none
image_loop (some create) unset i (tbm ∷ tbms) =
    image_loop (some create) unset (i + 1) tbms >>= λ (buffers, events). some (
      record { tbm = tbm; image = image_after (unset i) (create tbm) } ∷ buffers,
      create_image tbm ∷ events,
    )

unfoldable pub create_buffers :
    Environment → Surface → (has_deinit : Bool) → List ℕ → Option Created
create_buffers env surface has_deinit tbms =
    if env.has_buffer_memory (length tbms)
    then (image_loop env.create_presentable_image env.unset_image 0 tbms >>= λ (buffers, events).
        some (
          success,
          handle (record { surface = surface; buffer_count = length tbms; buffers = buffers }),
          alloc_chain ∷ alloc_buffers ∷ events,
        ))
    else some (fail error_out_of_host_memory has_deinit (alloc_chain ∷ []))

-- What follows the choice of the format.
unfoldable pub create_backend : Environment → Surface → TbmFormat → Option Created
create_backend env surface format =
    let (error, has_deinit) = env.init surface format in
    if is_success error
    then (let (error, tbms) = env.get_buffers in
        if is_success error
        then create_buffers env surface has_deinit tbms
        else some (fail error has_deinit (alloc_chain ∷ [])))
    else some (fail error has_deinit (alloc_chain ∷ []))

-- `none` is a call through `NULL`.
unfoldable pub vk_create_swapchain_khr : Environment → CreateInfo → Option Created
vk_create_swapchain_khr env info =
    if is_known_platform info.surface
    then (if env.has_chain_memory
        then elim (get_tbm_format info.image_format info.composite_alpha) [
          | none ↦ some (error_surface_lost_khr, untouched, alloc_chain ∷ [])
          | some format ↦ create_backend env info.surface format
        ]
        else some (error_out_of_host_memory, untouched, []))
    else some (error_extension_not_present, untouched, [])

-- The result and `*swapchains`, which nothing sets.
unfoldable pub vk_create_shared_swapchains_khr : List CreateInfo → VkResult × List Handle
vk_create_shared_swapchains_khr infos = (success, map (λ info. untouched) infos)

-- The loop of `vk_DestroySwapchainKHR` from index `i` with `n` rounds left; `none` is a read
-- outside the array of buffers.
unfoldable pub destroy_loop : (n i : ℕ) → List Buffer → Option (List Event)
destroy_loop zero i buffers = some []
destroy_loop (suc n) i buffers = get_elem? buffers i >>= λ b.
    destroy_loop n (i + 1) buffers >>= λ events. some (destroy_image b.image ∷ events)

-- `has_destroy_image` is whether the driver has `vkDestroyImage`.
unfoldable pub vk_destroy_swapchain_khr :
    (has_destroy_image : Bool) → Swapchain → Option (List Event)
vk_destroy_swapchain_khr has_destroy_image chain =
    let last = deinit ∷ free_buffers ∷ free_chain ∷ [] in
    if has_destroy_image
    then (destroy_loop chain.buffer_count 0 chain.buffers >>= λ events. some (events ++ last))
    else some last

unfoldable pub vk_get_swapchain_images_khr : Swapchain → Query ℕ
vk_get_swapchain_images_khr chain image_count none = some (success, chain.buffer_count, none)
vk_get_swapchain_images_khr chain image_count (some images) =
    let n = min image_count chain.buffer_count in
    copy_loop (λ (b : Buffer). b.image) n 0 chain.buffers images >>= λ images.
    some ((if ltb n chain.buffer_count then incomplete else success), n, some images)

-- The search for the buffer that the backend gave: its index, and its image.
unfoldable pub buffer_loop : (tbm n i : ℕ) → List Buffer → Option (Option (ℕ × ℕ))
buffer_loop tbm zero i buffers = some none
buffer_loop tbm (suc n) i buffers = get_elem? buffers i >>= λ b.
    let rest = buffer_loop tbm n (i + 1) buffers in
    if tbm == b.tbm then some (some (i, b.image)) else rest

-- The result, `*image_index` if it is set, and what the driver's `acquire_image` is called with, if it
-- has one: the image and the fence of the backend. The backend gives its result, a buffer and a fence.
abbrev pub Acquired : Type 0
Acquired = VkResult × Option ℕ × Option (ℕ × ℕ)

unfoldable pub vk_acquire_next_image_khr :
    (has_acquire_image : Bool) (acquire_image : ℕ → Bool → VkResult × ℕ × ℕ)
    → Swapchain
    → (timeout : ℕ) → Option Acquired
vk_acquire_next_image_khr has_acquire_image acquire_image chain timeout =
    let (res, tbm, sync) = acquire_image timeout has_acquire_image in
    if is_success res
    then (buffer_loop tbm chain.buffer_count 0 chain.buffers >>= λ found. elim found [
      | none ↦ some (error_surface_lost_khr, none, none)
      | some hit ↦
          some (success, some hit.0, if has_acquire_image then some (hit.1, sync) else none)
    ])
    else some (res, none, none)

-- One present: the swapchain, the buffer, and the fence, `none` for -1.
abbrev pub Presented : Type 0
Presented = Swapchain × ℕ × Option ℕ

unfoldable pub fence_of : (signal : Option (ℕ → Option ℕ)) → ℕ → Option ℕ
fence_of none image = none
fence_of (some f) image = f image

-- `if (info->pResults != NULL) info->pResults[i] = res;`
unfoldable pub store_result :
    Option (List VkResult) → ℕ → VkResult → Option (Option (List VkResult))
store_result none i res = some none
store_result (some results) i res = write results i res >>= λ results'. some (some results')

-- The loop of `vk_QueuePresentKHR` from index `i` with `n` rounds left: the presents in order, and the
-- array of results. The backend may answer differently each round.
unfoldable pub present_loop :
    (signal : Option (ℕ → Option ℕ)) (present_image : ℕ → Presented → VkResult)
    → (n i : ℕ) → List Swapchain
    → List ℕ
    → Option (List VkResult)
    → Option (List Presented × Option (List VkResult))
present_loop signal present_image zero i chains indices results = some ([], results)
present_loop signal present_image (suc n) i chains indices results = get_elem? chains i >>= λ chain.
    get_elem? indices i >>= λ index. get_elem? chain.buffers index >>= λ b.
    let p : Presented = (chain, b.tbm, fence_of signal b.image) in
    store_result results i (present_image i p) >>= λ results'.
    present_loop signal present_image n (i + 1) chains indices results' >>= λ r. some (p ∷ r.0, r.1)

unfoldable pub vk_queue_present_khr :
    (signal : Option (ℕ → Option ℕ)) (present_image : ℕ → Presented → VkResult)
    → (swapchain_count : ℕ) → List Swapchain
    → List ℕ
    → Option (List VkResult)
    → Option (VkResult × List Presented × Option (List VkResult))
vk_queue_present_khr signal present_image swapchain_count chains indices results =
    present_loop signal present_image swapchain_count 0 chains indices results >>= λ r.
    some (success, r.0, r.1)
