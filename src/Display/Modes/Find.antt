-- ===== src/Display/Modes/Find.antt =====
-- The search loops of `vk_CreateDisplayModeKHR` in src/wsi/display.c.
use vulkan_wsi_tizen.Common.{
  ℕ, zero, suc, ◌+◌, ◌≤◌, ◌<◌, ◌≡◌, ◌≢◌, ◌↔◌, ◌⊎◌, refl, sym, ap, ◌∙◌, inl, inr, true, false, none,
  some, List, arith, length, get_elem?, get_elem?_of_lt, Bool-cases,
}
use vulkan_wsi_tizen.Display.{Pointer, ModeParameters, DisplayMode}
use vulkan_wsi_tizen.Display.Modes.{same_parameters, find_mode_loop}
use native.Mathlib.Decide.{dec_lt}

pub same_parameters_iff : (a b : ModeParameters) → (same_parameters a b ≡ true) ↔ (a ≡ b)
unfolding same_parameters
same_parameters_iff a b = (λ h. ground arith, λ h. ground arith)

-- An element of the array with the parameters.
pub record Hit (info : ModeParameters) (modes : List DisplayMode) (h : Pointer) : Type 0 where
  pub index : ℕ
  pub mode : DisplayMode
  pub at : get_elem? modes index ≡ some mode
  pub handle : mode.prop.display_mode ≡ h
  pub parameters : mode.prop.parameters ≡ info

-- No element between two indices has the parameters.
abbrev pub Misses : ModeParameters → ℕ → ℕ → List DisplayMode → Type 0
Misses info i j modes =
    (k : ℕ) (m : DisplayMode)
    → i ≤ k
    → k < j
    → get_elem? modes k ≡ some m
    → m.prop.parameters ≢ info

Misses-from :
    (info : ModeParameters) (i j : ℕ) (modes : List DisplayMode) (m : DisplayMode)
    → get_elem? modes i ≡ some m
    → same_parameters m.prop.parameters info ≡ false
    → Misses info (i + 1) j modes
    → Misses info i j modes
Misses-from info i j modes m got miss misses k m' lo hi at same = elim (dec_lt i k) [
  | yes above ↦ misses k m' (omega arith) hi at same
  | no here ↦
      let first : k ≡ i = omega arith in
      let both : some m' ≡ some m = sym at ∙ ap (get_elem? modes) first ∙ got in
      let equal : m' ≡ m = cc both in
      let hit =
        (same_parameters_iff m.prop.parameters info).1
          (ap (λ (x : DisplayMode). x.prop.parameters) (sym equal) ∙ same) in
      cc
]

-- The loop stays inside the array; it ends with a handle of a mode that has the parameters, or no mode
-- that it looked at has them.
pub find_mode_loop-cases :
    (info : ModeParameters) (n i j : ℕ) (modes : List DisplayMode)
    → i + n ≡ j
    → j ≤ length modes
    → (find_mode_loop info n i modes ≡ some none) × Misses info i j modes
      ⊎ (h : Pointer) × (find_mode_loop info n i modes ≡ some (some h)) × Hit info modes h
unfolding find_mode_loop
find_mode_loop-cases info zero i j modes e fits = inl (refl, λ k m lo hi. absurd (omega arith))
find_mode_loop-cases info (suc n) i j modes e fits =
    let (m, got) = get_elem?_of_lt modes i (omega arith) in
    elim (Bool-cases (same_parameters m.prop.parameters info)) [
      | inl hit ↦ inr (
        m.prop.display_mode,
        rw (got, hit),
        record {
          index = i;
          mode = m;
          at = got;
          handle = refl;
          parameters = (same_parameters_iff _ _).0 hit;
        },
      )
      | inr miss ↦ elim (find_mode_loop-cases info n (i + 1) j modes (omega arith) fits) [
        | inr (h, run, hit) ↦ inr (h, rw (got, miss) run, hit)
        | inl (run, misses) ↦ inl (rw (got, miss) run, Misses-from info i j modes m got miss misses)
      ]
    ]
