-- ===== src/Display/Ready.antt =====
-- When a `vk_physical_device_t` of src/wsi/display.c is well formed, and the steps that set up one
-- display.
use vulkan_wsi_tizen.Common.{
  ℕ, zero, suc, ◌+◌, ◌≤◌, ◌<◌, ◌≡◌, refl, sym, ap, ◌∙◌, inl, inr, true, Option, none, some, List,
  [], ◌∷◌, arith, length, get_elem?, ltb, Bool-cases,
}
use vulkan_wsi_tizen.Display.{
  vk_max_display_count, vk_max_plane_count, ModeParameters, DisplayMode, ModeArray, Display,
  DisplayPlane, PhysicalDevice, Extent,
}
use vulkan_wsi_tizen.Display.Setup.{
  Tdm, built_in, set_up_prop, set_up_display, AvailableSize, store_prop, set_up_modes,
}
use vulkan_wsi_tizen.Display.Modes.Create.{IsValid}

-- A plane that shows, and supports, one of the first `bound` displays.
pub record IsOwned (bound : ℕ) (p : DisplayPlane) : Type 0 where
  pub shows_lt : p.current_display < bound
  pub one : p.supported_display_count ≡ 1
  pub first : get_elem? p.supported_displays 0 ≡ some p.current_display
  pub shown : p.prop.current_display ≡ p.current_display

-- A display that is set up at index `i`.
pub record IsUp (i : ℕ) (d : Display) : Type 0 where
  pub valid : IsValid d
  pub handle : d.prop.display ≡ i

-- The counts stay inside the arrays, and what lies below them is set up.
pub record IsReady (bound : ℕ) (pdev : PhysicalDevice) : Type 0 where
  pub displays_size : length pdev.displays ≡ vk_max_display_count
  pub planes_size : length pdev.planes ≡ vk_max_plane_count
  pub display_le : pdev.display_count ≤ vk_max_display_count
  pub plane_le : pdev.plane_count ≤ vk_max_plane_count
  pub wide :
      (j : ℕ) (p : DisplayPlane)
      → get_elem? pdev.planes j ≡ some p
      → 0 < length p.supported_displays
  pub owned :
      (j : ℕ) (p : DisplayPlane)
      → j < pdev.plane_count
      → get_elem? pdev.planes j ≡ some p
      → IsOwned bound p
  pub ready :
      (i : ℕ) (d : Display) → i < pdev.display_count → get_elem? pdev.displays i ≡ some d → IsUp i d

length-built_in :
    (self block i : ℕ) (modes : List ModeParameters)
    → length (built_in self block i modes) ≡ length modes
unfolding built_in
length-built_in self block i [] = refl
length-built_in self block i (m ∷ modes) = ap suc (length-built_in self block (i + 1) modes)

built_in-handle :
    (self block i k : ℕ) (modes : List ModeParameters) (m : DisplayMode)
    → get_elem? (built_in self block i modes) k ≡ some m
    → m.prop.display_mode ≡ record { block = block; index = i + k }
unfolding built_in
built_in-handle self block i k [] m h = cc
built_in-handle self block i zero (x ∷ modes) m h = ground arith
built_in-handle self block i (suc k) (x ∷ modes) m h =
    ground (arith, built_in-handle self block (i + 1) k modes m)

-- The built-in modes are as many as counted, and hold their own addresses.
record HasModes (d : Display) : Type 0 where
  count : d.built_in_mode_count ≡ length d.built_in_modes.cells
  handles :
      (i : ℕ) (m : DisplayMode)
      → get_elem? d.built_in_modes.cells i ≡ some m
      → m.prop.display_mode ≡ record { block = d.built_in_modes.block; index = i }

store_prop-IsUp :
    (self : ℕ) (d : Display) (name : Option ℕ) (size : Option Extent)
    (resolution : Option AvailableSize)
    → HasModes d
    → d.custom_mode_count ≡ 0
    → d.custom_modes.cells ≡ []
    → (store_prop self d name size resolution).1 ≡ true
    → IsUp self (store_prop self d name size resolution).0
unfolding store_prop
store_prop-IsUp self d none size resolution has zero_custom no_custom done = cc
store_prop-IsUp self d (some name) none resolution has zero_custom no_custom done = cc
store_prop-IsUp self d (some name) (some size) none has zero_custom no_custom done = cc
store_prop-IsUp self d (some name) (some size) (some resolution) has zero_custom no_custom done =
    record {
      valid = record {
        built_in_count = has.count;
        custom_count = rw no_custom zero_custom;
        apart = λ h. absurd (omega arith);
        built_in_handles = has.handles;
        custom_handles =
            λ i m at. absurd (cc (sym (ap (λ cells. get_elem? cells i) no_custom) ∙ at));
      };
      handle = refl;
    }

set_up_modes-IsUp :
    (tdm : Tdm) (self output : ℕ) (modes : List ModeParameters) (d : Display) (block : Option ℕ)
    → (set_up_modes tdm self output modes d block).1 ≡ true
    → IsUp self (set_up_modes tdm self output modes d block).0
unfolding set_up_modes set_up_prop
set_up_modes-IsUp tdm self output modes d none done = cc
set_up_modes-IsUp tdm self output modes d (some block) done =
    store_prop-IsUp self _ (tdm.get_model_info output) (tdm.get_physical_size output)
      (tdm.get_available_size output)
      (record {
        count = sym (length-built_in self block 0 modes);
        handles = λ i m at. ground (arith, built_in-handle self block 0 i modes m at);
      })
      refl refl done

no_modes-IsUp :
    (tdm : Tdm) (self output : ℕ) (d : Display)
    → d.built_in_mode_count ≡ 0
    → d.built_in_modes ≡ record { block = 0; cells = [] }
    → (set_up_prop tdm self output d).1 ≡ true
    → IsUp self (set_up_prop tdm self output d).0
unfolding set_up_prop
no_modes-IsUp tdm self output d zero_modes none_there done =
    store_prop-IsUp self _ (tdm.get_model_info output) (tdm.get_physical_size output)
      (tdm.get_available_size output)
      (record {
        count = ground arith;
        handles = λ i m at.
            absurd (cc (sym (ap (λ (a : ModeArray). get_elem? a.cells i) none_there) ∙ at));
      })
      refl refl done

-- Where no step fails the display is set up.
pub set_up_display-IsUp :
    (tdm : Tdm) (calloc : ℕ → ℕ → Option ℕ) (self output : ℕ) (modes : List ModeParameters)
    (old : Display)
    → (set_up_display tdm calloc self output modes old).1 ≡ true
    → IsUp self (set_up_display tdm calloc self output modes old).0
unfolding set_up_display
set_up_display-IsUp tdm calloc self output modes old = elim (Bool-cases (ltb 0 (length modes))) [
  | inl some_modes ↦ rw some_modes (set_up_modes-IsUp tdm self output modes _ _)
  | inr no_modes ↦ rw no_modes (no_modes-IsUp tdm self output _ refl refl)
]
