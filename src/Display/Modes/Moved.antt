-- ===== src/Display/Modes/Moved.antt =====
-- What becomes of the custom modes when `vk_CreateDisplayModeKHR` of src/wsi/display.c adds one.
use vulkan_wsi_tizen.Common.{
  ℕ, ◌+◌, ◌<◌, ◌≡◌, ◌≢◌, refl, sym, ap, ◌∙◌, inl, inr, Option, none, some, [], ◌∷◌, ◌++◌, arith,
  length, get_elem?, length-append, ◌⊎◌, lt_of_some,
}
use native.Mathlib.Decide.{dec_lt, ℕ_discrete}
use vulkan_wsi_tizen.Enumerate.Results.{success}
use vulkan_wsi_tizen.Display.{Pointer, ModeParameters, DisplayMode, Display}
use vulkan_wsi_tizen.Display.Modes.{custom_mode, vk_create_display_mode_khr}
use vulkan_wsi_tizen.Display.Modes.Find.{Hit, Misses, find_mode_loop-cases}
use vulkan_wsi_tizen.Display.Modes.Create.{
  IsValid, deref, get_elem?-append_left, get_elem?-append_length, get_elem?-of_length_le, grown,
  create-grown,
}

module _ (self block : ℕ) (d : Display) (info : ModeParameters) (valid : IsValid d) where
  -- An element of the longer array is an old one, or the new one.
  grown-cases :
      (i : ℕ) (m : DisplayMode)
      → get_elem? (d.custom_modes.cells ++ custom_mode self block d.custom_mode_count info ∷ []) i
        ≡ some m
      → (get_elem? d.custom_modes.cells i ≡ some m)
        ⊎ (i ≡ d.custom_mode_count) × (m ≡ custom_mode self block d.custom_mode_count info)
  grown-cases i m at =
      let new = custom_mode self block d.custom_mode_count info in
      let cells = d.custom_modes.cells in
      elim (dec_lt i (length cells)) [
        | yes old ↦ inl (sym (get_elem?-append_left cells (new ∷ []) i old) ∙ at)
        | no late ↦ elim (ℕ_discrete i (length cells)) [
          | yes last ↦
              let both : some m ≡ some new = sym at ∙ get_elem?-append_length cells new i last in
              inr (omega arith, cc both)
          | no beyond ↦
              let nothing =
                get_elem?-of_length_le (cells ++ new ∷ []) i
                  (omega (arith, length-append cells (new ∷ []))) in
              absurd (cc (sym at ∙ nothing))
        ]
      ]

  -- In place, or where there was no custom mode, the display stays valid.
  pub grown-IsValid :
      (d.custom_modes.block ≡ block) ⊎ (d.custom_mode_count ≡ 0)
      → block ≢ d.built_in_modes.block
      → IsValid (grown self d block info)
  unfolding custom_mode
  grown-IsValid still fresh = record {
    built_in_count = valid.built_in_count;
    custom_count = omega (
      arith,
      valid.custom_count,
      length-append d.custom_modes.cells (custom_mode self block d.custom_mode_count info ∷ []),
    );
    apart = λ _ e. fresh (sym e);
    built_in_handles = valid.built_in_handles;
    custom_handles = λ i m at. elim (grown-cases i m at) [
      | inl old ↦ elim still [
        | inl same ↦ ground (arith, valid.custom_handles i m old)
        | inr empty ↦ absurd (
            cc (
              sym old
              ∙ get_elem?-of_length_le d.custom_modes.cells i (omega (arith, valid.custom_count))))
      ]
      | inr (last, new) ↦ ground arith
    ];
  }

  -- What is left of a custom mode that was there before, when its array moves: the stored handle still
  -- names the old block.
  stale :
      (i : ℕ) (m : DisplayMode)
      → get_elem? d.custom_modes.cells i ≡ some m
      → block ≢ d.custom_modes.block
      → deref (grown self d block info) m.prop.display_mode ≡ none
  unfolding deref
  stale i m at moved =
      let some_custom : 0 < d.custom_mode_count =
        omega (arith, valid.custom_count, lt_of_some d.custom_modes.cells i m at) in
      ground (arith, valid.custom_handles i m at, valid.apart some_custom)

  -- An element of the longer array that has other parameters than the new mode has a stale handle.
  Hit-stale :
      (h : Pointer) (p : ModeParameters)
      → p ≢ info
      → Hit p (d.custom_modes.cells ++ custom_mode self block d.custom_mode_count info ∷ []) h
      → block ≢ d.custom_modes.block
      → deref (grown self d block info) h ≡ none
  unfolding custom_mode
  Hit-stale h p other hit moved = elim (grown-cases hit.index hit.mode hit.at) [
    | inl old ↦ rw (← hit.handle) (stale hit.index hit.mode old moved)
    | inr (last, new) ↦
        absurd (other (sym hit.parameters ∙ ap (λ (x : DisplayMode). x.prop.parameters) new))
  ]

-- Two calls with different parameters in turn: if the first adds a custom mode and `realloc` moves the
-- array, then the second, with the parameters of a custom mode that was there before and that no
-- built-in mode has, returns success with a handle into the freed block, which points at no mode.
pub moved-stale :
    (realloc : ℕ → ℕ → Option ℕ) (self block : ℕ) (d : Display) (info : ModeParameters)
    → IsValid d
    → Misses info 0 d.built_in_mode_count d.built_in_modes.cells
    → Misses info 0 d.custom_mode_count d.custom_modes.cells
    → realloc d.custom_modes.block (d.custom_mode_count + 1) ≡ some block
    → block ≢ d.custom_modes.block
    → (i : ℕ) (m : DisplayMode) → get_elem? d.custom_modes.cells i ≡ some m
    → Misses m.prop.parameters 0 d.built_in_mode_count d.built_in_modes.cells
    → (vk_create_display_mode_khr realloc self d info
        ≡ some (
          success,
          some (record { block = block; index = d.custom_mode_count }),
          grown self d block info,
        ))
      × (h : Pointer) × (vk_create_display_mode_khr realloc self
            (grown self d block info)
            m.prop.parameters
          ≡ some (success, some h, grown self d block info))
      × (deref (grown self d block info) h ≡ none)
unfolding vk_create_display_mode_khr
moved-stale realloc self block d info valid new fresh room moved i m at elsewhere =
    let added = create-grown realloc self block d info valid new fresh room in
    let p = m.prop.parameters in
    let cells = d.custom_modes.cells ++ custom_mode self block d.custom_mode_count info ∷ [] in
    let size =
      length-append d.custom_modes.cells (custom_mode self block d.custom_mode_count info ∷ []) in
    let inside : i < length d.custom_modes.cells = lt_of_some _ i m at in
    let kept : get_elem? cells i ≡ some m =
      get_elem?-append_left d.custom_modes.cells _ i inside ∙ at in
    let other : p ≢ info = fresh i m (omega arith) (omega (arith, valid.custom_count)) at in
    elim (find_mode_loop-cases p d.built_in_mode_count 0 d.built_in_mode_count
      d.built_in_modes.cells (omega arith) (omega (arith, valid.built_in_count))) [
        | inr (h, run, hit) ↦ absurd (
            elsewhere hit.index hit.mode (omega arith)
              (omega (arith, valid.built_in_count, lt_of_some _ hit.index hit.mode hit.at)) hit.at
              hit.parameters)
        | inl (run, misses) ↦
            elim (find_mode_loop-cases p (d.custom_mode_count + 1) 0 (d.custom_mode_count + 1) cells
              (omega arith) (omega (arith, size, valid.custom_count))) [
                | inr (h, run', hit) ↦ (
                  added,
                  h,
                  rw (run, run'),
                  Hit-stale self block d info valid h p other hit moved,
                )
                | inl (run', misses') ↦
                    absurd (misses' i m (omega arith) (omega (arith, valid.custom_count)) kept refl)
              ]
      ]
