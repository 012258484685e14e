-- ===== src/Display/Samples.antt =====
-- A device before its initialisation, and answers of TDM, for the tests of src/wsi.
use vulkan_wsi_tizen.Common.{
  ℕ, zero, suc, ◌+◌, ◌*◌, ◌<◌, ◌≤◌, ◌≡◌, true, false, Option, none, some, List, [], ◌∷◌, arith,
  refl, length, get_elem?, replicate, length-replicate, ◌==◌, if◌then◌else◌, ap,
}
use vulkan_wsi_tizen.Display.{Extent, ModeParameters, Display, DisplayPlane, PhysicalDevice}
use vulkan_wsi_tizen.Display.Setup.{Tdm, layer_rounds}
use vulkan_wsi_tizen.Display.Outputs.{HasArrays, GivesModes, layers_of, outputs_of, layers_from}

abbrev pub extent : ℕ → ℕ → Extent
extent w h = record { width = w; height = h }

abbrev pub parameters : ℕ → ModeParameters
parameters rate = record { visible_region = extent 720 1280; refresh_rate = rate }

abbrev pub modes_of : ℕ → List ModeParameters
modes_of o = if o == 10 then parameters 30000 ∷ parameters 60000 ∷ [] else []

abbrev pub sample_tdm : ℕ → Tdm
sample_tdm count = record {
  display_init = (some 1, true);
  get_output_count = some count;
  get_output = λ i. some (10 + i);
  get_available_modes = λ o. some (modes_of o);
  get_model_info = λ o. some (100 + o);
  get_physical_size = λ o. some (extent 60 107);
  get_available_size = λ o. some (record { least = extent 1 1; most = extent 720 1280 });
  get_layer_count = λ o. if o == 10 then none else some 2;
  get_layer = λ o i. if i == 1 then none else some (10 * o + i);
  get_zpos = λ layer. layer;
  unset_zpos = λ layer. 7;
}

-- `calloc` gives a block that depends on the output, `realloc` one that depends on the old block.
abbrev pub calloc : ℕ → ℕ → Option ℕ
calloc o n = some (o + 1000)

abbrev pub realloc : ℕ → ℕ → Option ℕ
realloc b n = some (b + 2000)

abbrev pub blank : Display
blank = record {
  has_pdev = false;
  tdm_output = 0;
  prop = record {
    display = 0;
    display_name = 0;
    physical_dimensions = extent 0 0;
    physical_resolution = extent 0 0;
    supported_transforms = 0;
    plane_reorder_possible = false;
    persistent_content = false;
  };
  built_in_mode_count = 0;
  built_in_modes = record { block = 0; cells = [] };
  custom_mode_count = 0;
  custom_modes = record { block = 0; cells = [] };
}

abbrev pub blank_plane : DisplayPlane
blank_plane = record {
  has_pdev = false;
  tdm_layer = none;
  prop = record { current_display = 0; current_stack_index = 0 };
  supported_display_count = 0;
  supported_displays = replicate 16 0;
  current_display = 0;
  current_stack_index = 0;
}

abbrev pub blank_device : PhysicalDevice
blank_device = record {
  tdm_display = none;
  display_count = 0;
  displays = replicate 16 blank;
  plane_count = 0;
  planes = replicate 64 blank_plane;
}

blank-wide :
    (n j : ℕ) (p : DisplayPlane)
    → get_elem? (replicate n blank_plane) j ≡ some p
    → 0 < length p.supported_displays
blank-wide zero j p found = cc
blank-wide (suc n) zero p found =
    let same : blank_plane ≡ p = cc found in
    omega (arith, ap (λ (q : DisplayPlane). length q.supported_displays) same)
blank-wide (suc n) (suc j) p found = blank-wide n j p found

pub blank-HasArrays : HasArrays blank_device
blank-HasArrays = record {
  displays_size = length-replicate 16 blank;
  planes_size = length-replicate 64 blank_plane;
  wide = blank-wide 64;
}

pub gives_modes : GivesModes (sample_tdm 2)
gives_modes i output found = (modes_of output, refl)

pub counts_fit :
    (outputs_of (sample_tdm 2) ≤ 16)
    × (layers_from (sample_tdm 2) (outputs_of (sample_tdm 2)) 0 ≤ 64)
unfolding layers_from layers_of layer_rounds outputs_of
counts_fit = (omega arith, omega arith)
