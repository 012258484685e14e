-- ===== src/TplBackend.antt =====
-- src/wsi/swapchain_tpl.c: the backend of swapchains on the surfaces that TPL knows. What TPL and the
-- memory answer is a parameter; objects of TPL and buffers are numbers, `none` is NULL.
pub mod Lifecycle
pub mod SetUp
pub mod Ends
pub mod Creation
pub mod Modes
mod Tests
use vulkan_wsi_tizen.Common.{
  ℕ, Bool, true, false, Option, none, some, List, [], ◌∷◌, ◌++◌, if◌then◌else◌,
}
use vulkan_wsi_tizen.Enumerate.Results.{
  VkResult, success, timeout, error_out_of_host_memory, error_out_of_device_memory,
  error_device_lost, error_surface_lost_khr,
}
use vulkan_wsi_tizen.Formats.{TbmFormat}
use vulkan_wsi_tizen.Surface.{
  Surface, wayland, tbm_queue, display, other_platform, PresentMode, immediate, mailbox, fifo,
  fifo_relaxed,
}

-- `TPL_DISPLAY_PRESENT_MODE_*`
pub data TplPresentMode : Type 0 where
  tpl_immediate tpl_mailbox tpl_fifo tpl_fifo_relaxed : TplPresentMode

-- `tpl_result_t`, as far as it is looked at.
pub data TplResult : Type 0 where
  tpl_none tpl_out_of_memory tpl_invalid : TplResult

-- The calls of TPL and of the allocator that take or give something back.
pub data Call : Type 0 where
  alloc_backend free_backend : Call
  display_create : ℕ → Call
  object_reference object_unreference : Option ℕ → Call
  surface_create surface_unreference : ℕ → Call
  create_swapchain : (width height min_count : ℕ) → TplPresentMode → Call
  destroy_swapchain get_buffers free_buffers : Call

-- What TPL and the allocator answer while a swapchain is set up.
pub record TplAnswers : Type 0 where
  pub has_memory : Bool
  pub display_create : Option ℕ
  pub display_get : Option ℕ
  pub surface_create : Option ℕ
  pub create_swapchain : TplPresentMode → TplResult
  pub buffers_result : TplResult
  pub buffers : List ℕ

-- `struct vk_swapchain_tpl`
pub record SwapchainTpl : Type 0 where
  pub tpl_display : Option ℕ
  pub tpl_surface : Option ℕ
  pub buffers : Option (List ℕ)

-- The parts of `VkSwapchainCreateInfoKHR` that the backend reads; `none` for another present mode.
pub record TplInfo : Type 0 where
  pub width : ℕ
  pub height : ℕ
  pub min_image_count : ℕ
  pub present_mode : Option PresentMode

-- What `vk_get_tpl_display` does after the switch on the platform.
unfoldable pub create_or_get : TplAnswers → Option ℕ × List Call
create_or_get a = elim (a.display_create) [
  | some dpy ↦ (some dpy, display_create dpy ∷ [])
  | none ↦ (a.display_get, object_reference a.display_get ∷ [])
]

unfoldable pub vk_get_tpl_display : TplAnswers → Surface → Option ℕ × List Call
vk_get_tpl_display a (wayland d s) = create_or_get a
vk_get_tpl_display a (tbm_queue b q) = create_or_get a
vk_get_tpl_display a (display sfc) = (none, [])
vk_get_tpl_display a other_platform = (none, [])

-- The switch on `info->presentMode`.
unfoldable pub tpl_present_mode : Option PresentMode → Option TplPresentMode
tpl_present_mode (some immediate) = some tpl_immediate
tpl_present_mode (some mailbox) = some tpl_mailbox
tpl_present_mode (some fifo) = some tpl_fifo
tpl_present_mode (some fifo_relaxed) = some tpl_fifo_relaxed
tpl_present_mode none = none

-- How a set-up ends: the result, if `chain->deinit` is set, `chain->backend_data`, and the calls.
abbrev pub Initialised : Type 0
Initialised = VkResult × Bool × Option SwapchainTpl × List Call

-- `if (object) tpl_object_unreference(object);` for the display and for the surface.
unfoldable pub unreference_display : Option ℕ → List Call
unreference_display none = []
unreference_display (some d) = object_unreference (some d) ∷ []

unfoldable pub unreference_surface : Option ℕ → List Call
unreference_surface none = []
unreference_surface (some s) = surface_unreference s ∷ []

-- The label `error`; the calls so far come first. The data of the backend stays allocated.
unfoldable pub init_error : VkResult → SwapchainTpl → List Call → Initialised
init_error error b calls = (
  error,
  false,
  some b,
  calls ++ (unreference_display b.tpl_display ++ unreference_surface b.tpl_surface),
)

-- From the switch on the present mode on.
unfoldable pub init_swapchain : TplAnswers → TplInfo → SwapchainTpl → List Call → Initialised
init_swapchain a info b calls = elim (tpl_present_mode info.present_mode) [
  | none ↦ init_error error_device_lost b calls
  | some mode ↦ elim (a.create_swapchain mode) [
    | tpl_out_of_memory ↦ init_error error_out_of_device_memory b calls
    | tpl_invalid ↦ init_error error_device_lost b calls
    | tpl_none ↦ (
      success,
      true,
      some b,
      calls ++ create_swapchain info.width info.height info.min_image_count mode ∷ [],
    )
  ]
]

unfoldable pub swapchain_tpl_init : TplAnswers → Surface → TplInfo → Initialised
swapchain_tpl_init a surface info =
    if a.has_memory
    then (let (dpy, calls) = vk_get_tpl_display a surface in
        let b : SwapchainTpl = record { tpl_display = dpy; tpl_surface = none; buffers = none } in
        let calls = alloc_backend ∷ calls in
        elim dpy [
          | none ↦ init_error error_device_lost b calls
          | some d ↦ elim (a.surface_create) [
            | none ↦ init_error error_device_lost b calls
            | some s ↦
                init_swapchain a info (record b { tpl_surface = some s })
                  (calls ++ surface_create s ∷ [])
          ]
        ])
    else (error_out_of_host_memory, false, none, [])

-- The result, `*buffers` if it is set, the data of the backend, and the calls.
unfoldable pub swapchain_tpl_get_buffers :
    TplAnswers → SwapchainTpl → VkResult × Option (List ℕ) × SwapchainTpl × List Call
swapchain_tpl_get_buffers a b = elim (a.buffers_result) [
  | tpl_none ↦ (success, some a.buffers, record b { buffers = some a.buffers }, get_buffers ∷ [])
  | tpl_out_of_memory ↦ (error_out_of_device_memory, none, b, [])
  | tpl_invalid ↦ (error_surface_lost_khr, none, b, [])
]

unfoldable pub free_buffers_of : Option (List ℕ) → List Call
free_buffers_of none = []
free_buffers_of (some buffers) = free_buffers ∷ []

unfoldable pub swapchain_tpl_deinit : Option SwapchainTpl → List Call
swapchain_tpl_deinit none = []
swapchain_tpl_deinit (some b) =
    destroy_swapchain
    ∷ (unreference_surface b.tpl_surface
        ++ (unreference_display b.tpl_display ++ (free_buffers_of b.buffers ++ free_backend ∷ [])))

-- The result and the buffer, with the fence where one is wanted. `dequeue` is what TPL gives.
unfoldable pub swapchain_tpl_acquire_next_image :
    (dequeue : ℕ → Option (ℕ × Option ℕ)) (dequeue_plain : Option ℕ) (limit : ℕ) (sync : Bool)
    → VkResult × Option ℕ × Option ℕ
swapchain_tpl_acquire_next_image dequeue dequeue_plain limit sync =
    if sync
    then elim (dequeue limit) [
      | none ↦ (timeout, none, none)
      | some (surface, fence) ↦ (success, some surface, fence)
    ]
    else elim dequeue_plain [
      | none ↦ (error_surface_lost_khr, none, none)
      | some surface ↦ (success, some surface, none)
    ]

unfoldable pub swapchain_tpl_queue_present_image :
    (enqueue : ℕ → Option ℕ → TplResult) (surface : ℕ) (sync_fd : Option ℕ) → VkResult
swapchain_tpl_queue_present_image enqueue surface sync_fd = elim (enqueue surface sync_fd) [
  | tpl_none ↦ success
  | tpl_out_of_memory ↦ error_device_lost
  | tpl_invalid ↦ error_device_lost
]
