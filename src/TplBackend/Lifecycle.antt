-- ===== src/TplBackend/Lifecycle.antt =====
-- What the calls of src/wsi/swapchain_tpl.c take and give back, and the end of a swapchain.
use vulkan_wsi_tizen.Common.{
  ℕ, ◌+◌, ◌≡◌, refl, Bool, true, false, Option, none, some, List, [], ◌∷◌, ◌++◌, arith,
}
use vulkan_wsi_tizen.Common.Counting.{indicator, count, count-append}
use vulkan_wsi_tizen.TplBackend.{
  Call, alloc_backend, free_backend, display_create, object_reference, object_unreference,
  surface_create, surface_unreference, create_swapchain, destroy_swapchain, get_buffers,
  free_buffers, SwapchainTpl, unreference_display, unreference_surface, free_buffers_of,
  swapchain_tpl_deinit,
}

-- What the backend takes.
pub data Resource : Type 0 where
  backend_data tpl_display tpl_surface tpl_swapchain buffer_array : Resource

abbrev pub takes : Resource → Call → Bool
takes backend_data alloc_backend = true
takes tpl_display (display_create d) = true
takes tpl_display (object_reference (some d)) = true
takes tpl_surface (surface_create s) = true
takes tpl_swapchain (create_swapchain width height n mode) = true
takes buffer_array get_buffers = true
takes _ _ = false

abbrev pub gives_back : Resource → Call → Bool
gives_back backend_data free_backend = true
gives_back tpl_display (object_unreference (some d)) = true
gives_back tpl_surface (surface_unreference s) = true
gives_back tpl_swapchain destroy_swapchain = true
gives_back buffer_array free_buffers = true
gives_back _ _ = false

abbrev has : {A : Type 0} → Option A → Bool
has none = false
has (some x) = true

-- What a backend holds.
abbrev pub holds : SwapchainTpl → Resource → Bool
holds b backend_data = true
holds b tpl_display = has b.tpl_display
holds b tpl_surface = has b.tpl_surface
holds b tpl_swapchain = true
holds b buffer_array = has b.buffers

abbrev pub Holds : SwapchainTpl → List Call → Type 0
Holds b calls =
    (r : Resource)
    → (count (takes r) calls ≡ indicator (holds b r)) × (count (gives_back r) calls ≡ 0)

-- The calls have given back once what they took once.
abbrev pub IsReleased : Resource → List Call → Type 0
IsReleased r calls = (count (takes r) calls ≡ count (gives_back r) calls)

deinit-counts :
    (b : SwapchainTpl) (r : Resource)
    → (count (takes r) (swapchain_tpl_deinit (some b)) ≡ 0)
      × (count (gives_back r) (swapchain_tpl_deinit (some b)) ≡ indicator (holds b r))
unfolding swapchain_tpl_deinit unreference_surface unreference_display free_buffers_of
deinit-counts b backend_data = (ground arith, ground arith)
deinit-counts b tpl_display = (ground arith, ground arith)
deinit-counts b tpl_surface = (ground arith, ground arith)
deinit-counts b tpl_swapchain = (ground arith, ground arith)
deinit-counts b buffer_array = (ground arith, ground arith)

-- The end of a backend gives back all that it holds.
pub deinit-IsReleased :
    (b : SwapchainTpl) (calls : List Call) (r : Resource)
    → Holds b calls
    → IsReleased r (calls ++ swapchain_tpl_deinit (some b))
deinit-IsReleased b calls r held =
    let (taken, given) = held r in
    let (in_end, out_end) = deinit-counts b r in
    let ending = swapchain_tpl_deinit (some b) in
    omega (
      arith,
      count-append (takes r) calls ending,
      count-append (gives_back r) calls ending,
      taken,
      given,
      in_end,
      out_end,
    )

get_buffers-counts :
    (b : SwapchainTpl) (buffers : List ℕ) (r : Resource)
    → b.buffers ≡ none
    → (indicator (holds b r) + count (takes r) (get_buffers ∷ [])
        ≡ indicator (holds (record b { buffers = some buffers }) r))
      × (count (gives_back r) (get_buffers ∷ []) ≡ 0)
get_buffers-counts b buffers backend_data empty = (refl, refl)
get_buffers-counts b buffers tpl_display empty = (omega arith, refl)
get_buffers-counts b buffers tpl_surface empty = (omega arith, refl)
get_buffers-counts b buffers tpl_swapchain empty = (refl, refl)
get_buffers-counts b buffers buffer_array empty = (ground arith, refl)

-- The buffers are taken once.
pub get_buffers-Holds :
    (b : SwapchainTpl) (buffers : List ℕ) (calls : List Call)
    → b.buffers ≡ none
    → Holds b calls
    → Holds (record b { buffers = some buffers }) (calls ++ get_buffers ∷ [])
get_buffers-Holds b buffers calls empty held r =
    let (taken, given) = held r in
    let last = get_buffers ∷ [] in
    let (in_last, out_last) = get_buffers-counts b buffers r empty in
    (
      omega (arith, count-append (takes r) calls last, taken, in_last),
      omega (arith, count-append (gives_back r) calls last, given, out_last),
    )
