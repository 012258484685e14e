-- ===== src/TdmBackend/Effects.antt =====
-- The calls of `swapchain_tdm_get_buffers` of src/wsi/swapchain_tdm.c that take something or switch
-- the display, on each of its branches.
use mathlib.Core.List.{append-nil}
use vulkan_wsi_tizen.Common.{
  ℕ, ◌≡◌, refl, ap, ◌∙◌, inl, inr, Bool, true, false, Option, none, some, List, [], ◌∷◌, ◌++◌,
  arith, if◌then◌else◌, Bool-cases, Option-cases, get_elem?,
}
use vulkan_wsi_tizen.Enumerate.Results.{
  VkResult, success, error_out_of_host_memory, error_surface_lost_khr,
}
use vulkan_wsi_tizen.TdmBackend.SetUp.{
  dpms_on, SetUpCall, alloc_buffers, dequeue, release, set_dpms, set_mode, set_layer_info, TdmData,
  SetUpAnswers, dequeue_loop, release_loop, calls_of, layer_info, Buffers, show_output, switch_on,
  read_dpms, swapchain_tdm_get_buffers,
}

-- The calls other than those for one buffer and for the mode and the layer.
abbrev pub is_effect : SetUpCall → Bool
is_effect (dequeue b) = false
is_effect (release b) = false
is_effect (set_mode mode) = false
is_effect (set_layer_info info) = false
is_effect _ = true

abbrev pub effects : List SetUpCall → List SetUpCall
effects [] = []
effects (c ∷ calls) = if is_effect c then c ∷ effects calls else effects calls

pub effects-append : (xs ys : List SetUpCall) → effects (xs ++ ys) ≡ effects xs ++ effects ys
effects-append [] ys = refl
effects-append (c ∷ xs) ys = ground (arith, effects-append xs ys)

effects-calls_of :
    (f : ℕ → SetUpCall) (buffers : List ℕ)
    → ((b : ℕ) → is_effect (f b) ≡ false)
    → effects (calls_of f buffers) ≡ []
unfolding calls_of
effects-calls_of f [] hidden = refl
effects-calls_of f (b ∷ bs) hidden = ground (arith, hidden b, effects-calls_of f bs hidden)

-- How getting the buffers ends, as far as the effects go.
pub data Ended (a : SetUpAnswers) (b : TdmData) : Option Buffers → Type 0 where
  undefined : Ended a b none
  no_array : Ended a b (some (error_out_of_host_memory, none, b, []))
  not_shown :
      (xs : List ℕ) (calls : List SetUpCall)
      → effects calls ≡ alloc_buffers ∷ []
      → Ended a b (some (error_surface_lost_khr, none, record b { buffers = some xs }, calls))
  shown :
      (res : VkResult) (xs : List ℕ) (calls : List SetUpCall)
      → effects calls ≡ alloc_buffers ∷ set_dpms dpms_on ∷ []
      → Ended a b (
          some (
            res,
            some xs,
            record b { buffers = some xs; tdm_dpms = read_dpms a b.tdm_dpms },
            calls,
          ))

Ended-eq :
    (a : SetUpAnswers) (b : TdmData) (r r' : Option Buffers) → r ≡ r' → Ended a b r' → Ended a b r
Ended-eq a b r r' e ended = rw e ended

effects-quiet :
    (xs ys zs : List SetUpCall) → effects xs ≡ zs → effects ys ≡ [] → effects (xs ++ ys) ≡ zs
effects-quiet xs ys zs known quiet =
    effects-append xs ys ∙ ap (λ cs. effects xs ++ cs) quiet ∙ append-nil (effects xs) ∙ known

-- After the display is switched on.
show_output-Ended :
    (a : SetUpAnswers) (b : TdmData) (xs : List ℕ) (calls : List SetUpCall)
    → effects calls ≡ alloc_buffers ∷ set_dpms dpms_on ∷ []
    → Ended a b
        (show_output a xs (record b { buffers = some xs; tdm_dpms = read_dpms a b.tdm_dpms }) calls)
unfolding show_output
show_output-Ended a b xs calls lit =
    let b' : TdmData = record b { buffers = some xs; tdm_dpms = read_dpms a b.tdm_dpms } in
    let lights = alloc_buffers ∷ set_dpms dpms_on ∷ [] in
    let dark = calls ++ set_mode b.tdm_mode ∷ [] in
    elim (Bool-cases (a.set_mode)) [
      | inr failed ↦
          Ended-eq a b _ (some (error_surface_lost_khr, some xs, b', dark)) (ground arith) (
            shown error_surface_lost_khr xs dark
              (effects-quiet calls (set_mode b.tdm_mode ∷ []) lights lit refl))
      | inl set ↦ elim (Option-cases (get_elem? xs 0)) [
        | inl nothing ↦ Ended-eq a b _ none (ground arith) undefined
        | inr (first, at) ↦
            let last =
              set_mode b.tdm_mode ∷ set_layer_info (layer_info (a.surface_info first)) ∷ [] in
            let all = calls ++ last in
            let quiet = effects-quiet calls last lights lit refl in
            elim (Bool-cases (a.set_layer_info)) [
              | inl fine ↦
                  Ended-eq a b _ (some (success, some xs, b', all)) (ground arith)
                    (shown success xs all quiet)
              | inr failed ↦
                  Ended-eq a b _ (some (error_surface_lost_khr, some xs, b', all)) (ground arith)
                    (shown error_surface_lost_khr xs all quiet)
            ]
      ]
    ]

switch_on-Ended :
    (a : SetUpAnswers) (b : TdmData) (xs : List ℕ) (calls : List SetUpCall)
    → effects calls ≡ alloc_buffers ∷ []
    → Ended a b (switch_on a xs (record b { buffers = some xs }) calls)
unfolding switch_on
switch_on-Ended a b xs calls so_far =
    let on = calls ++ set_dpms dpms_on ∷ [] in
    let b' : TdmData = record b { buffers = some xs; tdm_dpms = read_dpms a b.tdm_dpms } in
    let lit : effects on ≡ alloc_buffers ∷ set_dpms dpms_on ∷ [] =
      effects-append calls (set_dpms dpms_on ∷ [])
      ∙ ap (λ cs. cs ++ set_dpms dpms_on ∷ []) so_far in
    elim (Bool-cases (a.set_dpms)) [
      | inr dark ↦
          Ended-eq a b _ (some (error_surface_lost_khr, some xs, b', on)) (ground arith)
            (shown error_surface_lost_khr xs on lit)
      | inl bright ↦
          Ended-eq a b _ (show_output a xs b' on) (ground arith) (show_output-Ended a b xs on lit)
    ]

pub get_buffers-Ended : (a : SetUpAnswers) (b : TdmData) → Ended a b (swapchain_tdm_get_buffers a b)
unfolding swapchain_tdm_get_buffers
get_buffers-Ended a b =
    let (xs, all) = dequeue_loop a.dequeue a.queue_size 0 in
    let (ys, done) = release_loop a.release 0 xs in
    let b' : TdmData = record b { buffers = some xs } in
    let calls = alloc_buffers ∷ calls_of dequeue xs in
    let calls' = calls ++ calls_of release ys in
    let taken : effects calls ≡ alloc_buffers ∷ [] =
      ap (λ cs. alloc_buffers ∷ cs) (effects-calls_of dequeue xs (λ x. refl)) in
    let given =
      effects-quiet calls (calls_of release ys) (alloc_buffers ∷ []) taken
        (effects-calls_of release ys (λ x. refl)) in
    elim (Bool-cases (a.has_buffer_memory)) [
      | inr full ↦
          Ended-eq a b _ (some (error_out_of_host_memory, none, b, [])) (ground arith) no_array
      | inl room ↦ elim (Bool-cases all) [
        | inr short ↦
            Ended-eq a b _ (some (error_surface_lost_khr, none, b', calls)) (ground arith)
              (not_shown xs calls taken)
        | inl full ↦ elim (Bool-cases done) [
          | inr short ↦
              Ended-eq a b _ (some (error_surface_lost_khr, none, b', calls')) (ground arith)
                (not_shown xs calls' given)
          | inl fine ↦
              Ended-eq a b _ (switch_on a xs b' calls') (ground arith)
                (switch_on-Ended a b xs calls' given)
        ]
      ]
    ]
