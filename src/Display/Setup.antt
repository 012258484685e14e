-- ===== src/Display/Setup.antt =====
-- How src/wsi/display.c reads the outputs and layers of TDM into a `vk_physical_device_t`, and lets
-- them go. TDM is a parameter; a query gives `none` for any error, and then sets nothing. The source
-- does not look at the errors of four of them. A count that TDM gives is not negative, and `strdup`
-- is taken to succeed.
use vulkan_wsi_tizen.Common.{
  ℕ, zero, suc, ◌+◌, Bool, true, false, Option, none, some, List, [], ◌∷◌, ◌++◌, get_elem?, set,
  length, ltb, ◌==◌, if◌then◌else◌, ◌>>=◌,
}
use vulkan_wsi_tizen.Display.{
  Extent, ModeParameters, DisplayMode, Display, PhysicalDevice, DisplayPlane,
}

-- The least and the greatest size that `tdm_output_get_available_size` gives.
pub record AvailableSize : Type 0 where
  pub least : Extent
  pub most : Extent

-- Outputs and layers are numbers, and a layer that is `none` is `NULL`. `display_init` gives the
-- connection and whether there is no error. `unset_zpos` is what the variable for the position of a
-- layer happens to hold where the query does not set it.
pub record Tdm : Type 0 where
  pub display_init : Option ℕ × Bool
  pub get_output_count : Option ℕ
  pub get_output : ℕ → Option ℕ
  pub get_available_modes : ℕ → Option (List ModeParameters)
  pub get_model_info : ℕ → Option ℕ
  pub get_physical_size : ℕ → Option Extent
  pub get_available_size : ℕ → Option AvailableSize
  pub get_layer_count : ℕ → Option ℕ
  pub get_layer : ℕ → ℕ → Option ℕ
  pub get_zpos : Option ℕ → Option ℕ
  pub unset_zpos : Option ℕ → ℕ

-- `zpos` after `tdm_layer_get_zpos`, whose error is not looked at.
unfoldable pub layer_zpos : Tdm → Option ℕ → ℕ
layer_zpos tdm layer = elim (tdm.get_zpos layer) [ none ↦ tdm.unset_zpos layer | some zpos ↦ zpos ]

-- What is stored in the plane; only the first supported display is written.
unfoldable pub new_plane : Tdm → DisplayPlane → (layer : Option ℕ) → (display : ℕ) → DisplayPlane
new_plane tdm plane layer display =
    let zpos = layer_zpos tdm layer in
    record {
      has_pdev = true;
      tdm_layer = layer;
      prop = record { current_display = display; current_stack_index = zpos };
      supported_display_count = 1;
      supported_displays = set plane.supported_displays 0 display;
      current_display = display;
      current_stack_index = zpos;
    }

-- `plane` is `&pdev->planes[pdev->plane_count]`; a write behind the array is a fault.
unfoldable pub add_tdm_layer :
    Tdm → PhysicalDevice → (layer : Option ℕ) → (display : ℕ) → Option PhysicalDevice
add_tdm_layer tdm pdev layer display = get_elem? pdev.planes pdev.plane_count >>= λ plane.
    some (record pdev {
      plane_count = pdev.plane_count + 1;
      planes = set pdev.planes pdev.plane_count (new_plane tdm plane layer display);
    })

-- The loop that fills `built_in_modes` from index `i`.
unfoldable pub built_in : (self block i : ℕ) → List ModeParameters → List DisplayMode
built_in self block i [] = []
built_in self block i (m ∷ modes) =
    record {
      display = some self;
      prop = record { display_mode = record { block = block; index = i }; parameters = m };
      tdm_mode = some i;
    }
    ∷ built_in self block (i + 1) modes

-- The properties that `add_tdm_output` stores for the display with index `self`, as far as the
-- queries succeed; `false` for an early return.
unfoldable pub store_prop :
    (self : ℕ) → Display → Option ℕ → Option Extent → Option AvailableSize → Display × Bool
store_prop self d none size resolution =
    (record d { prop = record (d.prop) { display = self } }, false)
store_prop self d (some name) none resolution =
    (record d { prop = record (d.prop) { display = self; display_name = name } }, false)
store_prop self d (some name) (some size) none = (
  record d {
    prop = record (d.prop) { display = self; display_name = name; physical_dimensions = size };
  },
  false,
)
store_prop self d (some name) (some size) (some resolution) = (
  record d {
    prop = record {
      display = self;
      display_name = name;
      physical_dimensions = size;
      physical_resolution = resolution.most;
      supported_transforms = 1;
      plane_reorder_possible = false;
      persistent_content = false;
    };
  },
  true,
)

-- The statements of `add_tdm_output` behind those for the built-in modes, up to the layers.
unfoldable pub set_up_prop : Tdm → (self output : ℕ) → Display → Display × Bool
set_up_prop tdm self output dpy =
    store_prop self
      (record dpy { custom_mode_count = 0; custom_modes = record { block = 0; cells = [] } })
      (tdm.get_model_info output) (tdm.get_physical_size output) (tdm.get_available_size output)

-- The built-in modes in the block that `calloc` gave, and what follows.
unfoldable pub set_up_modes :
    Tdm → (self output : ℕ) → List ModeParameters → Display → Option ℕ → Display × Bool
set_up_modes tdm self output modes dpy none = (dpy, false)
set_up_modes tdm self output modes dpy (some block) = set_up_prop tdm self output (record dpy {
  built_in_mode_count = length modes;
  built_in_modes = record { block = block; cells = built_in self block 0 modes };
})

-- `modes` are those that TDM gave for the output; `calloc` gives the block for so many of them.
unfoldable pub set_up_display :
    Tdm
    → (calloc : ℕ → ℕ → Option ℕ) → (self output : ℕ) → List ModeParameters
    → Display
    → Display × Bool
set_up_display tdm calloc self output modes dpy =
    let d0 = record dpy {
      has_pdev = true;
      tdm_output = output;
      built_in_mode_count = 0;
      built_in_modes = record { block = 0; cells = [] };
    } in
    let count = length modes in
    if ltb 0 count
    then set_up_modes tdm self output modes d0 (calloc output count)
    else set_up_prop tdm self output d0

-- The loop over the layers, from index `i` with `n` rounds left.
unfoldable pub add_layers : Tdm → (output display n i : ℕ) → PhysicalDevice → Option PhysicalDevice
add_layers tdm output display zero i pdev = some pdev
add_layers tdm output display (suc n) i pdev =
    add_tdm_layer tdm pdev (tdm.get_layer output i) display >>= λ pdev'.
    add_layers tdm output display n (i + 1) pdev'

-- `count` for the loop over the layers: where TDM does not give it, whose error is not looked at, it
-- still is the count of the modes.
unfoldable pub layer_rounds : Tdm → (output count : ℕ) → ℕ
layer_rounds tdm output count = elim (tdm.get_layer_count output) [ none ↦ count | some n ↦ n ]

-- An early return leaves what is set up in the array, and the count as it was. The error of
-- `tdm_output_get_available_modes` is not looked at: `count` and `modes` were never set then, and the
-- use that is made of them all the same is a fault.
unfoldable pub add_tdm_output :
    Tdm → (calloc : ℕ → ℕ → Option ℕ) → PhysicalDevice → ℕ → Option PhysicalDevice
add_tdm_output tdm calloc pdev output = get_elem? pdev.displays pdev.display_count >>= λ old.
    tdm.get_available_modes output >>= λ modes.
    let (dpy, done) = set_up_display tdm calloc pdev.display_count output modes old in
    let p1 = record pdev { displays = set pdev.displays pdev.display_count dpy } in
    if done
    then (add_layers tdm output pdev.display_count (layer_rounds tdm output (length modes)) 0 p1
        >>= λ p2. some (record p2 { display_count = p2.display_count + 1 }))
    else some p1

-- What `free` is called on, in order; nothing for `NULL`.
unfoldable pub display_fini : Display → List ℕ
display_fini d =
    (if d.built_in_modes.block == 0 then [] else d.built_in_modes.block ∷ [])
    ++ (if d.custom_modes.block == 0 then [] else d.custom_modes.block ∷ [])

unfoldable pub fini_loop : (n i : ℕ) → List Display → Option (List ℕ)
fini_loop zero i displays = some []
fini_loop (suc n) i displays = get_elem? displays i >>= λ d.
    fini_loop n (i + 1) displays >>= λ freed. some (display_fini d ++ freed)

-- The device afterwards, the blocks that were freed, and the connection that was closed.
unfoldable pub vk_physical_device_fini_display :
    PhysicalDevice → Option (PhysicalDevice × List ℕ × Option ℕ)
vk_physical_device_fini_display pdev = fini_loop pdev.display_count 0 pdev.displays >>= λ freed.
    some (
      record pdev { tdm_display = none; display_count = 0; plane_count = 0 },
      freed,
      pdev.tdm_display,
    )

-- The error label of `vk_physical_device_init_display`.
unfoldable pub init_failed : PhysicalDevice → Option (PhysicalDevice × Bool)
init_failed pdev = vk_physical_device_fini_display pdev >>= λ r. some (r.0, false)

unfoldable pub init_loop :
    Tdm → (calloc : ℕ → ℕ → Option ℕ) → (n i : ℕ) → PhysicalDevice → Option (PhysicalDevice × Bool)
init_loop tdm calloc zero i pdev = some (pdev, true)
init_loop tdm calloc (suc n) i pdev = elim (tdm.get_output i) [
  | none ↦ init_failed pdev
  | some output ↦
      add_tdm_output tdm calloc pdev output >>= λ pdev'. init_loop tdm calloc n (i + 1) pdev'
]

unfoldable pub vk_physical_device_init_display :
    Tdm → (calloc : ℕ → ℕ → Option ℕ) → PhysicalDevice → Option (PhysicalDevice × Bool)
vk_physical_device_init_display tdm calloc pdev =
    let (connection, done) = tdm.display_init in
    let p0 = record pdev { tdm_display = connection; display_count = 0; plane_count = 0 } in
    if done
    then (elim (tdm.get_output_count) [
      | none ↦ init_failed p0
      | some n ↦ init_loop tdm calloc n 0 p0
    ])
    else init_failed p0
