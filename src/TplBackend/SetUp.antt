-- ===== src/TplBackend/SetUp.antt =====
-- The set-up of a swapchain in src/wsi/swapchain_tpl.c, and what it leaves on each of its branches.
use vulkan_wsi_tizen.Common.{
  ℕ, ◌≡◌, refl, inl, inr, true, false, Option, none, some, List, [], ◌∷◌, ◌++◌, arith, Bool-cases,
  Option-cases, ◌⊎◌,
}
use vulkan_wsi_tizen.Common.Counting.{indicator, count}
use vulkan_wsi_tizen.Enumerate.Results.{
  success, error_device_lost, error_out_of_device_memory, error_out_of_host_memory,
}
use vulkan_wsi_tizen.Surface.{Surface, wayland, tbm_queue, display, other_platform}
use vulkan_wsi_tizen.TplBackend.{
  TplPresentMode, TplResult, tpl_none, tpl_out_of_memory, tpl_invalid, Call, alloc_backend,
  display_create, object_reference, surface_create, create_swapchain, TplAnswers, SwapchainTpl,
  TplInfo, vk_get_tpl_display, tpl_present_mode, Initialised, unreference_display,
  unreference_surface, init_error, init_swapchain, swapchain_tpl_init, create_or_get,
}
use vulkan_wsi_tizen.TplBackend.Lifecycle.{
  backend_data, tpl_display, tpl_surface, tpl_swapchain, buffer_array, takes, gives_back, Holds,
  IsReleased,
}

-- What a set-up leaves: after a success the backend holds what was taken; after a failure all of
-- TPL is given back, but not the data of the backend, and there is no `deinit` that would do it.
abbrev pub Leaves : TplAnswers → Initialised → Type 0
Leaves a (success, has_deinit, some b, calls) =
    (has_deinit ≡ true) × (b.buffers ≡ none) × Holds b calls
Leaves a (success, has_deinit, none, calls) = ⊥
Leaves a (error, has_deinit, b, calls) =
    (has_deinit ≡ false)
    × (count (takes backend_data) calls ≡ indicator a.has_memory)
    × (count (gives_back backend_data) calls ≡ 0)
    × (IsReleased tpl_display calls)
    × (IsReleased tpl_surface calls)
    × (IsReleased tpl_swapchain calls)
    × (IsReleased buffer_array calls)

Leaves-eq : (a : TplAnswers) (i i' : Initialised) → i ≡ i' → Leaves a i' → Leaves a i
Leaves-eq a i i' e leaves = rw e leaves

-- A call by which a display is taken.
data TakesDisplay (d : ℕ) : Call → Type 0 where
  created : TakesDisplay d (display_create d)
  referenced : TakesDisplay d (object_reference (some d))

-- The three answers of TPL.
pub TplResult-cases : (r : TplResult) → (r ≡ tpl_none) ⊎ (r ≡ tpl_out_of_memory) ⊎ (r ≡ tpl_invalid)
TplResult-cases tpl_none = inl refl
TplResult-cases tpl_out_of_memory = inr (inl refl)
TplResult-cases tpl_invalid = inr (inr refl)

-- The set-up after the surface is there: the data of the backend and the calls so far.
abbrev set_up : ℕ → ℕ → SwapchainTpl
set_up d s = record { tpl_display = some d; tpl_surface = some s; buffers = none }

abbrev calls_before : Call → ℕ → List Call
calls_before c s = alloc_backend ∷ c ∷ surface_create s ∷ []

module _ (a : TplAnswers) (memory : a.has_memory ≡ true) where
  surface_failed :
      (d s : ℕ) (c : Call)
      → TakesDisplay d c
      → Leaves a (init_error error_device_lost (set_up d s) (calls_before c s))
  unfolding init_error unreference_surface unreference_display
  surface_failed d s _ created = (refl, rw memory refl, refl, refl, refl, refl, refl)
  surface_failed d s _ referenced = (refl, rw memory refl, refl, refl, refl, refl, refl)

  surface_full :
      (d s : ℕ) (c : Call)
      → TakesDisplay d c
      → Leaves a (init_error error_out_of_device_memory (set_up d s) (calls_before c s))
  unfolding init_error
  surface_full d s c takes_it = surface_failed d s c takes_it

  -- Without a surface, only the display is given back; without a display, nothing is.
  no_surface :
      (d : ℕ) (c : Call)
      → TakesDisplay d c
      → Leaves a (
          init_error error_device_lost
            (record { tpl_display = some d; tpl_surface = none; buffers = none })
            (alloc_backend ∷ c ∷ []))
  unfolding init_error unreference_surface unreference_display
  no_surface d _ created = (refl, rw memory refl, refl, refl, refl, refl, refl)
  no_surface d _ referenced = (refl, rw memory refl, refl, refl, refl, refl, refl)

  no_display :
      (calls : List Call)
      → (calls ≡ []) ⊎ (calls ≡ object_reference none ∷ [])
      → Leaves a (
          init_error error_device_lost
            (record { tpl_display = none; tpl_surface = none; buffers = none })
            (alloc_backend ∷ calls))
  unfolding init_error unreference_surface unreference_display
  no_display calls (inl nothing) = rw (nothing, memory) (refl, refl, refl, refl, refl, refl, refl)
  no_display calls (inr nothing) = rw (nothing, memory) (refl, refl, refl, refl, refl, refl, refl)

  surface_made :
      (info : TplInfo) (d s : ℕ) (c : Call) (mode : TplPresentMode)
      → TakesDisplay d c
      → Leaves a (
        success,
        true,
        some (set_up d s),
        calls_before c s ++ create_swapchain info.width info.height info.min_image_count mode ∷ [],
      )
  surface_made info d s c mode takes_it = (refl, refl, held c takes_it)
    where
      held :
          (c : Call)
          → TakesDisplay d c
          → Holds (set_up d s) (
              calls_before c s
              ++ create_swapchain info.width info.height info.min_image_count mode ∷ [])
      held _ created backend_data = (refl, refl)
      held _ created tpl_display = (refl, refl)
      held _ created tpl_surface = (refl, refl)
      held _ created tpl_swapchain = (refl, refl)
      held _ created buffer_array = (refl, refl)
      held _ referenced backend_data = (refl, refl)
      held _ referenced tpl_display = (refl, refl)
      held _ referenced tpl_surface = (refl, refl)
      held _ referenced tpl_swapchain = (refl, refl)
      held _ referenced buffer_array = (refl, refl)

  init_swapchain-Leaves :
      (info : TplInfo) (d s : ℕ) (c : Call)
      → TakesDisplay d c
      → Leaves a (init_swapchain a info (set_up d s) (calls_before c s))
  unfolding init_swapchain
  init_swapchain-Leaves info d s c takes_it =
      let failed = surface_failed d s c takes_it in
      let broken = init_error error_device_lost (set_up d s) (calls_before c s) in
      elim (Option-cases (tpl_present_mode info.present_mode)) [
        | inl other ↦ Leaves-eq a _ broken (ground arith) failed
        | inr (mode, known) ↦ elim (TplResult-cases (a.create_swapchain mode)) [
          | inl fine ↦
              Leaves-eq a _
                (
                  success,
                  true,
                  some (set_up d s),
                  calls_before c s
                      ++ create_swapchain info.width info.height info.min_image_count mode ∷ [],
                )
                (ground arith) (surface_made info d s c mode takes_it)
          | inr (inl full) ↦
              Leaves-eq a _ (init_error error_out_of_device_memory (set_up d s) (calls_before c s))
                (ground arith) (surface_full d s c takes_it)
          | inr (inr invalid) ↦ Leaves-eq a _ broken (ground arith) failed
        ]
      ]

-- A display that is taken, or not, with the calls.
abbrev Taken : Option ℕ × List Call → Type 0
Taken r =
    ((d : ℕ) × (c : Call) × (r ≡ (some d, c ∷ [])) × TakesDisplay d c)
    ⊎ (calls : List Call) × (r ≡ (none, calls))
      × ((calls ≡ []) ⊎ (calls ≡ object_reference none ∷ []))

create_or_get-Taken : (a : TplAnswers) → Taken (create_or_get a)
unfolding create_or_get
create_or_get-Taken a = elim (Option-cases (a.display_create)) [
  | inr (d, got) ↦ inl (d, display_create d, ground arith, created)
  | inl missing ↦ elim (Option-cases (a.display_get)) [
    | inr (d, got) ↦ inl (d, object_reference (some d), ground arith, referenced)
    | inl nothing ↦ inr (object_reference none ∷ [], ground arith, inr refl)
  ]
]

tpl_display-Taken : (a : TplAnswers) (surface : Surface) → Taken (vk_get_tpl_display a surface)
unfolding vk_get_tpl_display
tpl_display-Taken a (wayland dpy sfc) = create_or_get-Taken a
tpl_display-Taken a (tbm_queue bufmgr queue) = create_or_get-Taken a
tpl_display-Taken a (display sfc) = inr ([], refl, inl refl)
tpl_display-Taken a other_platform = inr ([], refl, inl refl)

-- Every set-up leaves what `Leaves` says.
pub swapchain_tpl_init-Leaves :
    (a : TplAnswers) (surface : Surface) (info : TplInfo)
    → Leaves a (swapchain_tpl_init a surface info)
unfolding swapchain_tpl_init
swapchain_tpl_init-Leaves a surface info = elim (Bool-cases (a.has_memory)) [
  | inr full ↦
      Leaves-eq a _ (error_out_of_host_memory, false, none, []) (ground arith)
        (refl, rw full refl, refl, refl, refl, refl, refl)
  | inl memory ↦ elim (tpl_display-Taken a surface) [
    | inr (calls, nothing, how) ↦
        Leaves-eq a _
          (init_error error_device_lost
            (record { tpl_display = none; tpl_surface = none; buffers = none })
            (alloc_backend ∷ calls))
          (ground arith) (no_display a memory calls how)
    | inl (d, c, got, takes_it) ↦ elim (Option-cases (a.surface_create)) [
      | inl nothing ↦
          Leaves-eq a _
            (init_error error_device_lost
              (record { tpl_display = some d; tpl_surface = none; buffers = none })
              (alloc_backend ∷ c ∷ []))
            (ground arith) (no_surface a memory d c takes_it)
      | inr (s, made) ↦
          Leaves-eq a _ (init_swapchain a info (set_up d s) (calls_before c s)) (ground arith)
            (init_swapchain-Leaves a memory info d s c takes_it)
    ]
  ]
]
