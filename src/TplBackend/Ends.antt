-- ===== src/TplBackend/Ends.antt =====
-- How `vk_CreateSwapchainKHR` of src/wsi/swapchain.c may end over the backend of
-- src/wsi/swapchain_tpl.c, and what it leaves.
use vulkan_wsi_tizen.Common.{
  ℕ, ◌+◌, map, ◌≢◌, ◌≡◌, refl, ap, Bool, true, false, Option, none, some, List, [], ◌∷◌, ◌++◌,
  if◌then◌else◌, length,
}
use vulkan_wsi_tizen.Enumerate.Results.{VkResult, success, error_surface_lost_khr}
use vulkan_wsi_tizen.Surface.{Surface}
use vulkan_wsi_tizen.Swapchain.{
  Swapchain, Event, deinit, null, handle, Environment, Created, Buffer, create_image,
}
use vulkan_wsi_tizen.Swapchain.Create.{buffers_from, can_create}
use vulkan_wsi_tizen.TplBackend.{
  Call, TplAnswers, SwapchainTpl, TplInfo, swapchain_tpl_init, swapchain_tpl_get_buffers,
  swapchain_tpl_deinit, Initialised,
}
use vulkan_wsi_tizen.TplBackend.Lifecycle.{Resource, Holds, IsReleased}
use vulkan_wsi_tizen.TplBackend.SetUp.{Leaves}

-- What the driver and the allocator do for the swapchain itself.
pub record Others : Type 0 where
  pub create_presentable_image : Option (ℕ → Option ℕ)
  pub unset_image : ℕ → ℕ
  pub has_chain_memory : Bool
  pub has_buffer_memory : ℕ → Bool

abbrev pub buffers_of : Option (List ℕ) → List ℕ
buffers_of none = []
buffers_of (some buffers) = buffers

-- The backend as the swapchain sees it.
abbrev pub answers_for : TplAnswers → Option SwapchainTpl → VkResult × List ℕ
answers_for a none = (error_surface_lost_khr, [])
answers_for a (some b) = let r = swapchain_tpl_get_buffers a b in (r.0, buffers_of r.1)

abbrev pub tpl_environment : TplAnswers → Surface → TplInfo → Others → Environment
tpl_environment a surface info others = record {
  init = λ sfc format. (let r = swapchain_tpl_init a sfc info in (r.0, r.1));
  get_buffers = answers_for a (swapchain_tpl_init a surface info).2;
  create_presentable_image = others.create_presentable_image;
  unset_image = others.unset_image;
  has_chain_memory = others.has_chain_memory;
  has_buffer_memory = others.has_buffer_memory;
}

abbrev pub is_deinit : Event → Bool
is_deinit deinit = true
is_deinit _ = false

abbrev pub has_event : (Event → Bool) → List Event → Bool
has_event p [] = false
has_event p (e ∷ events) = if p e then true else has_event p events

-- The calls of the backend in a creation that has these events: `deinit` is called at the end, if
-- at all.
abbrev pub after_init : TplAnswers → Initialised → Bool → List Call
after_init a (success, has_deinit, some b, calls) ends =
    let r = swapchain_tpl_get_buffers a b in
    calls ++ (r.3 ++ (if ends then swapchain_tpl_deinit (some r.2) else []))
after_init a (error, has_deinit, b, calls) ends = calls

-- What a swapchain with these buffers holds: its backend's data `b` names all that was taken, its
-- array has an entry for each buffer of the backend, and `deinit` on the data gives all back.
abbrev pub Kept : SwapchainTpl → (tbms : List ℕ) → Swapchain → List Call → Type 0
Kept b tbms chain calls =
    Holds b calls
    × (chain.buffer_count ≡ length tbms)
    × (map (λ (x : Buffer). x.tbm) chain.buffers ≡ tbms)
    × ((r : Resource) → IsReleased r (calls ++ swapchain_tpl_deinit (some b)))

-- What a creation leaves.
abbrev pub Settled : TplAnswers → Initialised → Created → List Call → Type 0
Settled a (success, has_deinit, some b, c) (res, handle chain, events) calls =
    let r = swapchain_tpl_get_buffers a b in Kept r.2 (buffers_of r.1) chain calls
Settled a (success, has_deinit, b, c) (res, h, events) calls = (r : Resource) → IsReleased r calls
Settled a (error, has_deinit, b, c) (res, h, events) calls =
    (h ≡ null) × (res ≡ error) × Leaves a (error, has_deinit, b, calls)

-- How a creation ends: it returns, or it calls the driver through `NULL`, for a buffer that the
-- backend gives.
abbrev pub Ends : TplAnswers → Initialised → Others → Option Created → Type 0
Ends a i others none =
    (i.0 ≡ success) × (others.create_presentable_image ≡ none) × ((answers_for a i.2).1 ≢ [])
Ends a i others (some made) = Settled a i made (after_init a i (has_event is_deinit made.2))

-- Making the images calls no `deinit`.
pub images-quiet : (tbms : List ℕ) → has_event is_deinit (map create_image tbms) ≡ false
images-quiet [] = refl
images-quiet (tbm ∷ tbms) = images-quiet tbms

pub buffers_from-tbms :
    (create : Option (ℕ → Option ℕ)) (unset : ℕ → ℕ) (i : ℕ) (tbms : List ℕ)
    → map (λ (x : Buffer). x.tbm) (buffers_from create unset i tbms) ≡ tbms
buffers_from-tbms create unset i [] = refl
buffers_from-tbms create unset i (tbm ∷ tbms) =
    ap (λ xs. tbm ∷ xs) (buffers_from-tbms create unset (i + 1) tbms)

pub cannot_create :
    (create : Option (ℕ → Option ℕ)) (tbms : List ℕ)
    → can_create create tbms ≡ false
    → (create ≡ none) × (tbms ≢ [])
cannot_create create [] h = absurd (cc h)
cannot_create none (tbm ∷ tbms) h = (refl, λ e. absurd (cc e))
cannot_create (some create) (tbm ∷ tbms) h = absurd (cc h)
