-- ===== src/TdmBackend/Lifecycle.antt =====
-- The life of a swapchain in src/wsi/swapchain_tdm.c, from `swapchain_tdm_init` to
-- `swapchain_tdm_deinit`: what is taken and given back, and what becomes of the state of the
-- display.
use vulkan_wsi_tizen.Common.{
  ℕ, ◌≡◌, refl, sym, ap, ◌∙◌, inl, inr, Bool, true, false, Option, none, some, List, [], ◌∷◌, ◌++◌,
  arith, if◌then◌else◌, Bool-cases, Option-cases, get_elem?,
}
use vulkan_wsi_tizen.Enumerate.Results.{
  VkResult, success, error_out_of_host_memory, error_surface_lost_khr,
}
use vulkan_wsi_tizen.Formats.{TbmFormat}
use vulkan_wsi_tizen.TdmBackend.SetUp.{
  Dpms, dpms_on, dpms_off, SetUpCall, alloc_backend, free_backend, queue_destroy, init_locks,
  destroy_locks, queue_create, alloc_buffers, free_buffers, set_dpms, TdmData, TdmInfo,
  SetUpAnswers, blank_data, swapchain_tdm_init, Buffers, read_dpms, swapchain_tdm_get_buffers,
  swapchain_tdm_deinit,
}
use vulkan_wsi_tizen.TdmBackend.Effects.{
  effects, effects-append, Ended, undefined, no_array, not_shown, shown, get_buffers-Ended,
}

-- The effects of a life.
abbrev beginning : TdmInfo → TbmFormat → List SetUpCall
beginning info format =
    alloc_backend
    ∷ queue_create info.min_image_count info.width info.height format
    ∷ init_locks
    ∷ []

pub data Life (a : SetUpAnswers) (info : TdmInfo) (format : TbmFormat)
    : Option (List ℕ) → List SetUpCall → Type 0 where
  without_array : Life a info format none (
      beginning info format
      ++ set_dpms dpms_off ∷ destroy_locks ∷ queue_destroy ∷ free_backend ∷ [])
  without_output : Life a info format none (
      beginning info format
      ++ alloc_buffers
        ∷ set_dpms dpms_off
        ∷ destroy_locks
        ∷ queue_destroy
        ∷ free_buffers
        ∷ free_backend
        ∷ [])
  with_output :
      (xs : List ℕ)
      → Life a info format (some xs) (
          beginning info format
          ++ alloc_buffers
            ∷ set_dpms dpms_on
            ∷ set_dpms (read_dpms a dpms_off)
            ∷ destroy_locks
            ∷ queue_destroy
            ∷ free_buffers
            ∷ free_backend
            ∷ [])

abbrev InitResult : Type 0
InitResult = VkResult × Bool × Option TdmData × List SetUpCall

-- What a set-up that succeeds has done.
record Started (info : TdmInfo) (format : TbmFormat) (b : TdmData) (calls : List SetUpCall)
    : Type 0 where
  made : calls ≡ beginning info format
  off : b.tdm_dpms ≡ dpms_off
  queue : b.has_queue ≡ true
  no_buffers : b.buffers ≡ none

init-Started :
    (a : SetUpAnswers) (layers : List ℕ) (info : TdmInfo) (format : TbmFormat) (has_deinit : Bool)
    (b : TdmData) (calls : List SetUpCall)
    → swapchain_tdm_init a layers info format ≡ some (success, has_deinit, some b, calls)
    → Started info format b calls
unfolding swapchain_tdm_init
init-Started a layers info format has_deinit b calls run = elim (Bool-cases (a.has_memory)) [
  | inr full ↦ absurd (ground arith)
  | inl room ↦ elim (Option-cases (get_elem? layers info.plane_index)) [
    | inl outside ↦ absurd (ground arith)
    | inr (layer, at) ↦ elim (Bool-cases (a.queue_create)) [
      | inr failed ↦ absurd (ground arith)
      | inl made ↦
          let started : TdmData = record (blank_data layer) {
            tdm_mode = info.tdm_mode;
            tdm_dpms = dpms_off;
            has_queue = true;
          } in
          let whole : InitResult = (success, true, some started, beginning info format) in
          let whole' : InitResult = (success, has_deinit, some b, calls) in
          let ran : some whole ≡ some whole' = ground arith in
          let same : started ≡ b = cc ran in
          record {
            made = cc ran;
            off = ap (λ (x : TdmData). x.tdm_dpms) (sym same);
            queue = ap (λ (x : TdmData). x.has_queue) (sym same);
            no_buffers = ap (λ (x : TdmData). x.buffers) (sym same);
          }
    ]
  ]
]

Life-eq :
    (a : SetUpAnswers) (info : TdmInfo) (format : TbmFormat) (bs bs' : Option (List ℕ))
    (calls calls' : List SetUpCall)
    → bs ≡ bs'
    → calls ≡ calls'
    → Life a info format bs' calls'
    → Life a info format bs calls
Life-eq a info format bs bs' calls calls' e f life = rw (e, f) life

abbrev ending : Dpms → Bool → List SetUpCall
ending dpms has_buffers =
    set_dpms dpms
    ∷ destroy_locks
    ∷ queue_destroy
    ∷ (if has_buffers then free_buffers ∷ free_backend ∷ [] else free_backend ∷ [])

deinit-effects :
    (b : TdmData)
    → b.has_queue ≡ true
    → (b.buffers ≡ none → effects (swapchain_tdm_deinit (some b)) ≡ ending b.tdm_dpms false)
      × ((xs : List ℕ)
          → b.buffers ≡ some xs
          → effects (swapchain_tdm_deinit (some b)) ≡ ending b.tdm_dpms true)
unfolding swapchain_tdm_deinit
deinit-effects b queue = (λ empty. ground arith, λ xs full. ground arith)

got-inj : (r r' : Buffers) → some r ≡ some r' → (r'.1 ≡ r.1) × (r'.2 ≡ r.2) × (r'.3 ≡ r.3)
got-inj r r' e =
    let same : r' ≡ r = cc e in
    (ap (λ (x : Buffers). x.1) same, ap (λ (x : Buffers). x.2) same, ap (λ (x : Buffers). x.3) same)

finish :
    (a : SetUpAnswers) (info : TdmInfo) (format : TbmFormat) (b b' : TdmData) (res : VkResult)
    (buffers : Option (List ℕ)) (more calls : List SetUpCall) (r : Option Buffers)
    → Started info format b calls
    → Ended a b r
    → r ≡ some (res, buffers, b', more)
    → Life a info format buffers
        (beginning info format ++ (effects more ++ effects (swapchain_tdm_deinit (some b'))))
finish a info format b b' res buffers more calls _ start undefined e = absurd (cc e)
finish a info format b b' res buffers more calls _ start no_array e =
    let (outs, datas, logs) =
      got-inj (error_out_of_host_memory, none, b, []) (res, buffers, b', more) e in
    let middle = ap effects logs in
    let last =
      ap (λ x. effects (swapchain_tdm_deinit (some x))) datas
      ∙ (deinit-effects b start.queue).0 start.no_buffers
      ∙ ap (λ d. ending d false) start.off in
    rw (outs, middle, last) without_array
finish a info format b b' res buffers more calls _ start (not_shown xs cs known) e =
    let b1 : TdmData = record b { buffers = some xs } in
    let (outs, datas, logs) =
      got-inj (error_surface_lost_khr, none, b1, cs) (res, buffers, b', more) e in
    let middle = ap effects logs ∙ known in
    let last =
      ap (λ x. effects (swapchain_tdm_deinit (some x))) datas
      ∙ (deinit-effects b1 start.queue).1 xs refl
      ∙ ap (λ d. ending d true) start.off in
    rw (outs, middle, last) without_output
finish a info format b b' res buffers more calls _ start (shown res0 xs cs known) e =
    let b1 : TdmData = record b { buffers = some xs; tdm_dpms = read_dpms a b.tdm_dpms } in
    let (outs, datas, logs) = got-inj (res0, some xs, b1, cs) (res, buffers, b', more) e in
    let middle = ap effects logs ∙ known in
    let last =
      ap (λ x. effects (swapchain_tdm_deinit (some x))) datas
      ∙ (deinit-effects b1 start.queue).1 xs refl
      ∙ ap (λ d. ending (read_dpms a d) true) start.off in
    rw (outs, middle, last) (with_output xs)

-- For every set-up that succeeds, and whatever getting the buffers answers as long as it reads no
-- buffer of an empty queue: up to the end of `deinit` the data, the queue, the mutexes and the
-- array of buffers are each taken once and given back once, but for an array that was not
-- allocated. If the buffers are given out, the display is switched on and at the end set to the
-- state that was read before, or off where reading it failed; if they are not, the display is left
-- as it is and at the end switched off.
pub deinit-Life :
    (a : SetUpAnswers) (layers : List ℕ) (info : TdmInfo) (format : TbmFormat) (has_deinit : Bool)
    (b b' : TdmData) (res : VkResult) (buffers : Option (List ℕ)) (calls more : List SetUpCall)
    → swapchain_tdm_init a layers info format ≡ some (success, has_deinit, some b, calls)
    → swapchain_tdm_get_buffers a b ≡ some (res, buffers, b', more)
    → Life a info format buffers (effects (calls ++ (more ++ swapchain_tdm_deinit (some b'))))
deinit-Life a layers info format has_deinit b b' res buffers calls more set_up got =
    let start = init-Started a layers info format has_deinit b calls set_up in
    let life =
      finish a info format b b' res buffers more calls (swapchain_tdm_get_buffers a b) start
        (get_buffers-Ended a b) got in
    let last = swapchain_tdm_deinit (some b') in
    let first = ap effects start.made in
    Life-eq a info format buffers buffers _ _ refl
      (effects-append calls (more ++ last)
        ∙ ap (λ cs. cs ++ effects (more ++ last)) first
        ∙ ap (λ cs. beginning info format ++ cs) (effects-append more last))
      life
