-- ===== src/TplBackend/Creation.antt =====
-- `vk_CreateSwapchainKHR` of src/wsi/swapchain.c over the backend of src/wsi/swapchain_tpl.c.
use vulkan_wsi_tizen.Common.{
  ℕ, map, ◌≢◌, ◌≡◌, refl, sym, ap, inl, inr, Bool, true, false, Option, none, some, List, [], ◌∷◌,
  ◌++◌, arith, if◌then◌else◌, Bool-cases, length,
}
use mathlib.Core.List.{append-nil, append_assoc}
use mathlib.Core.Path.{subst}
use vulkan_wsi_tizen.Enumerate.Results.{
  VkResult, success, is_success, error_surface_lost_khr, error_out_of_host_memory, incomplete,
  timeout, error_out_of_device_memory, error_device_lost, error_extension_not_present,
}
use vulkan_wsi_tizen.Formats.{TbmFormat}
use vulkan_wsi_tizen.Surface.{Surface}
use vulkan_wsi_tizen.Swapchain.{
  Swapchain, alloc_chain, free_chain, deinit, alloc_buffers, null, handle, Environment, Created,
  fail, create_buffers, create_backend, untouched, create_image,
}
use vulkan_wsi_tizen.Swapchain.Create.{buffers_from, can_create, image_loop-eq, image_loop-fault}
use vulkan_wsi_tizen.TplBackend.{
  Call, TplAnswers, SwapchainTpl, TplInfo, swapchain_tpl_init, swapchain_tpl_get_buffers,
  swapchain_tpl_deinit, Initialised, vk_get_tpl_display, init_error, init_swapchain,
}
use vulkan_wsi_tizen.TplBackend.Lifecycle.{
  Resource, Holds, IsReleased, deinit-IsReleased, get_buffers-Holds,
}
use vulkan_wsi_tizen.TplBackend.SetUp.{Leaves, swapchain_tpl_init-Leaves, TplResult-cases}
use vulkan_wsi_tizen.TplBackend.Ends.{
  Others, buffers_of, answers_for, tpl_environment, is_deinit, has_event, Kept, Ends, images-quiet,
  buffers_from-tbms, cannot_create,
}

-- The environment after a set-up with this end.
abbrev environment_of : TplAnswers → Initialised → Others → Environment
environment_of a i others = record {
  init = λ sfc format. (i.0, i.1);
  get_buffers = answers_for a i.2;
  create_presentable_image = others.create_presentable_image;
  unset_image = others.unset_image;
  has_chain_memory = others.has_chain_memory;
  has_buffer_memory = others.has_buffer_memory;
}

-- What the backend holds after it was asked for the buffers.
buffers-Holds :
    (a : TplAnswers) (b : SwapchainTpl) (calls : List Call)
    → b.buffers ≡ none
    → Holds b calls
    → let r = swapchain_tpl_get_buffers a b in Holds r.2 (calls ++ r.3)
unfolding swapchain_tpl_get_buffers
buffers-Holds a b calls empty held = elim (TplResult-cases (a.buffers_result)) [
  | inl fine ↦ rw (fine) (get_buffers-Holds b a.buffers calls empty held)
  | inr (inl out) ↦ rw (out, append-nil calls) held
  | inr (inr bad) ↦ rw (bad, append-nil calls) held
]

module _ (a : TplAnswers) (surface : Surface) (others : Others) (format : TbmFormat) where
  -- The rest of a creation, from the buffers on, and what it leaves.
  abbrev continued : Initialised → VkResult → List ℕ → Option Created
  continued i res buffers =
      if is_success res
      then create_buffers (environment_of a i others) surface true buffers
      else some (fail res true (alloc_chain ∷ []))

  abbrev calls_at_end : (b' : SwapchainTpl) (calls more : List Call) → Bool → List Call
  calls_at_end b' calls more ends =
      calls ++ (more ++ (if ends then swapchain_tpl_deinit (some b') else []))

  abbrev Rest : (b' : SwapchainTpl) (calls more : List Call) → List ℕ → Option Created → Type 0
  Rest b' calls more buffers none = (others.create_presentable_image ≡ none) × (buffers ≢ [])
  Rest b' calls more buffers (some (res, handle chain, events)) =
      Kept b' buffers chain (calls_at_end b' calls more (has_event is_deinit events))
  Rest b' calls more buffers (some (res, h, events)) =
      (r : Resource) → IsReleased r (calls_at_end b' calls more (has_event is_deinit events))

  given_up :
      (b' : SwapchainTpl) (calls more : List Call) (buffers : List ℕ) (error : VkResult)
      → Holds b' (calls ++ more)
      → Rest b' calls more buffers (some (error, null, alloc_chain ∷ deinit ∷ free_chain ∷ []))
  given_up b' calls more buffers error held r =
      subst (IsReleased r) (append_assoc calls more (swapchain_tpl_deinit (some b')))
        (deinit-IsReleased b' (calls ++ more) r held)

  abbrev chain_over : List ℕ → Swapchain
  chain_over buffers = record {
    surface = surface;
    buffer_count = length buffers;
    buffers = buffers_from others.create_presentable_image others.unset_image 0 buffers;
  }

  handed_out :
      (b' : SwapchainTpl) (calls more : List Call) (buffers : List ℕ)
      → Holds b' (calls ++ more)
      → Rest b' calls more buffers (
          some (
            success,
            handle (chain_over buffers),
            alloc_chain ∷ alloc_buffers ∷ map create_image buffers,
          ))
  handed_out b' calls more buffers held =
      let none_more : calls ++ (more ++ []) ≡ calls ++ more =
        ap (λ xs. calls ++ xs) (append-nil more) in
      rw (images-quiet buffers, none_more)
        (
          held,
          refl,
          buffers_from-tbms others.create_presentable_image others.unset_image 0 buffers,
          λ r. deinit-IsReleased b' (calls ++ more) r held,
        )

  finish :
      (b b' : SwapchainTpl) (calls more : List Call) (res : VkResult) (buffers : List ℕ)
      → Holds b' (calls ++ more)
      → Rest b' calls more buffers (continued (success, true, some b, calls) res buffers)
  unfolding create_buffers fail
  finish b b' calls more res buffers held =
      let i : Initialised = (success, true, some b, calls) in
      let same = continued i res buffers in
      let make = others.create_presentable_image in
      elim (Bool-cases (is_success res)) [
        | inr failed ↦
            let e : same ≡ some (res, null, alloc_chain ∷ deinit ∷ free_chain ∷ []) =
              ground arith in
            subst (Rest b' calls more buffers) (sym e) (given_up b' calls more buffers res held)
        | inl fine ↦ elim (Bool-cases (others.has_buffer_memory (length buffers))) [
          | inr full ↦
              let e : same
                  ≡ some (error_out_of_host_memory, null, alloc_chain ∷ deinit ∷ free_chain ∷ []) =
                ground arith in
              subst (Rest b' calls more buffers) (sym e)
                (given_up b' calls more buffers error_out_of_host_memory held)
          | inl room ↦ elim (Bool-cases (can_create make buffers)) [
            | inr missing ↦
                let loop = image_loop-fault make others.unset_image 0 buffers missing in
                let e : same ≡ none = ground (arith, loop) in
                subst (Rest b' calls more buffers) (sym e) (cannot_create make buffers missing)
            | inl there ↦
                let loop = image_loop-eq make others.unset_image 0 buffers there in
                let e : same
                    ≡ some (
                      success,
                      handle (chain_over buffers),
                      alloc_chain ∷ alloc_buffers ∷ map create_image buffers,
                    ) =
                  ground (arith, loop) in
                subst (Rest b' calls more buffers) (sym e) (handed_out b' calls more buffers held)
          ]
        ]
      ]

  Rest-Ends :
      (b : SwapchainTpl) (calls : List Call) (made : Option Created)
      → let r = swapchain_tpl_get_buffers a b in
        Rest r.2 calls r.3 (buffers_of r.1) made → Ends a (success, true, some b, calls) others made
  Rest-Ends b calls none (missing, buffers) = (refl, missing, buffers)
  Rest-Ends b calls (some (res, handle chain, events)) rest = rest
  Rest-Ends b calls (some (res, null, events)) rest = rest
  Rest-Ends b calls (some (res, untouched, events)) rest = rest

  settle :
      (i : Initialised)
      → Leaves a i
      → Ends a i others (create_backend (environment_of a i others) surface format)
  unfolding create_backend fail
  settle (success, true, some b, calls) (deinits, empty, held) =
      let r = swapchain_tpl_get_buffers a b in
      Rest-Ends b calls _
        (finish b r.2 calls r.3 r.0 (buffers_of r.1) (buffers-Holds a b calls empty held))
  settle (success, false, some b, calls) (deinits, empty, held) = absurd (cc deinits)
  settle (success, has_deinit, none, calls) leaves = absurd leaves
  settle (incomplete, has_deinit, b, calls) leaves = (refl, refl, leaves)
  settle (timeout, has_deinit, b, calls) leaves = (refl, refl, leaves)
  settle (error_out_of_host_memory, has_deinit, b, calls) leaves = (refl, refl, leaves)
  settle (error_out_of_device_memory, has_deinit, b, calls) leaves = (refl, refl, leaves)
  settle (error_device_lost, has_deinit, b, calls) leaves = (refl, refl, leaves)
  settle (error_surface_lost_khr, has_deinit, b, calls) leaves = (refl, refl, leaves)
  settle (error_extension_not_present, has_deinit, b, calls) leaves = (refl, refl, leaves)

-- From the choice of the format on, `vk_CreateSwapchainKHR` over the backend of TPL ends in one of
-- four ways, whatever TPL, the driver and the allocator answer. If it calls the driver through `NULL`
-- then the driver has no function to make images, the backend was set up, and it gives a buffer. If
-- it gives a swapchain, the backend was set up, the array of the swapchain has an entry for each
-- buffer that TPL gave, in their order, the backend has taken once each thing that its data names,
-- with the swapchain of TPL and the data itself, and nothing else, and `deinit` on that data gives
-- all of it back. If it gives none although the backend was set up, all that was taken has been given
-- back. If the backend was not set up, it returns that error and the null handle, and all that was
-- taken from TPL is given back, but the data of the backend, where there was memory for it, is not.
pub create_backend-Settled :
    (a : TplAnswers) (surface : Surface) (info : TplInfo) (others : Others) (format : TbmFormat)
    → Ends a
        (swapchain_tpl_init a surface info)
        others
        (create_backend (tpl_environment a surface info others) surface format)
unfolding create_backend swapchain_tpl_init vk_get_tpl_display init_error init_swapchain
    create_buffers fail
create_backend-Settled a surface info others format =
    settle a surface others format (swapchain_tpl_init a surface info)
      (swapchain_tpl_init-Leaves a surface info)
