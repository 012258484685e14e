-- ===== src/Display/Modes.antt =====
-- `vk_CreateDisplayModeKHR` of src/wsi/display.c. `realloc` gives the block that an array of so many
-- modes is moved to, or nothing; it keeps the elements.
pub mod Find
pub mod Create
pub mod Moved
use vulkan_wsi_tizen.Common.{
  ℕ, zero, suc, ◌+◌, Bool, true, false, ◌&&◌, Option, none, some, List, [], ◌∷◌, ◌++◌, get_elem?,
  take, ◌==◌, if◌then◌else◌, ◌>>=◌,
}
use vulkan_wsi_tizen.Enumerate.Results.{VkResult, success, error_out_of_host_memory}
use vulkan_wsi_tizen.Display.{
  Pointer, ModeParameters, ModeProperties, DisplayMode, ModeArray, Display,
}

unfoldable pub same_parameters : ModeParameters → ModeParameters → Bool
same_parameters a b =
    a.visible_region.width == b.visible_region.width
    && (a.visible_region.height == b.visible_region.height && a.refresh_rate == b.refresh_rate)

-- The search from index `i` with `n` rounds left: the handle of the first mode with the parameters.
unfoldable pub find_mode_loop : ModeParameters → ℕ → ℕ → List DisplayMode → Option (Option Pointer)
find_mode_loop info zero i modes = some none
find_mode_loop info (suc n) i modes = get_elem? modes i >>= λ m.
    let rest = find_mode_loop info n (i + 1) modes in
    if same_parameters m.prop.parameters info then some (some m.prop.display_mode) else rest

-- The mode that is added at the end of the array in `block`. Its `tdm_mode` is not set.
unfoldable pub custom_mode : ℕ → ℕ → ℕ → ModeParameters → DisplayMode
custom_mode display block index info = record {
  display = some display;
  prop = record { display_mode = record { block = block; index = index }; parameters = info };
  tdm_mode = none;
}

-- `dpy` is the display with index `self`.
unfoldable pub vk_create_display_mode_khr :
    (realloc : ℕ → ℕ → Option ℕ) (self : ℕ)
    → Display
    → ModeParameters
    → Option (VkResult × Option Pointer × Display)
vk_create_display_mode_khr realloc self dpy info =
    find_mode_loop info dpy.built_in_mode_count 0 dpy.built_in_modes.cells >>= λ found. elim found [
      | some h ↦ some (success, some h, dpy)
      | none ↦ find_mode_loop info dpy.custom_mode_count 0 dpy.custom_modes.cells >>= λ found.
          elim found [
            | some h ↦ some (success, some h, dpy)
            | none ↦
                let n = dpy.custom_mode_count in
                elim (realloc dpy.custom_modes.block (n + 1)) [
                  | none ↦ some (error_out_of_host_memory, none, dpy)
                  | some block ↦
                      let m = custom_mode self block n info in
                      some (
                        success,
                        some m.prop.display_mode,
                        record dpy {
                          custom_mode_count = n + 1;
                          custom_modes = record {
                            block = block;
                            cells = take n dpy.custom_modes.cells ++ m ∷ [];
                          };
                        },
                      )
                ]
          ]
    ]
