-- ===== src/Display/Tests.antt =====
-- The displays of src/wsi/display.c at concrete inputs: two outputs, one with two modes and the other
-- with none, and two layers on each.
use vulkan_wsi_tizen.Common.{
  ℕ, ◌+◌, ◌≡◌, ◌≢◌, refl, Bool, true, Option, none, some, List, arith, length, get_elem?,
  length-replicate, ap, sym, ◌∙◌, inl, inr, get_elem?_of_lt,
}
use vulkan_wsi_tizen.Enumerate.{copy_loop}
use vulkan_wsi_tizen.Enumerate.Results.{VkResult, success}
use vulkan_wsi_tizen.Display.{
  ModeParameters, DisplayMode, Display, DisplayPlane, PhysicalDevice, Pointer,
  vk_get_physical_device_display_properties_khr, Extent,
}
use vulkan_wsi_tizen.Display.Setup.{
  new_plane, layer_zpos, layer_rounds, add_tdm_layer, built_in, store_prop, set_up_prop,
  set_up_modes, set_up_display, add_layers, add_tdm_output, display_fini, fini_loop,
  vk_physical_device_fini_display, init_failed, init_loop, vk_physical_device_init_display,
  AvailableSize,
}
use vulkan_wsi_tizen.Display.Modes.{
  same_parameters, find_mode_loop, custom_mode, vk_create_display_mode_khr,
}
use vulkan_wsi_tizen.Display.Modes.Find.{Misses, find_mode_loop-cases}
use vulkan_wsi_tizen.Display.Modes.Create.{
  IsValid, Outcome, Serves, grown, vk_create_display_mode_khr-Outcome,
  vk_create_display_mode_khr-Serves, deref,
}
use vulkan_wsi_tizen.Display.Modes.Moved.{moved-stale, grown-IsValid}
use vulkan_wsi_tizen.Display.Ready.{IsReady, IsUp, set_up_display-IsUp}
use vulkan_wsi_tizen.Display.Outputs.{
  Initialised, init_display-Initialised, outputs_of, layers_from,
}
use vulkan_wsi_tizen.Display.Overflow.{Works, init_display-overflow}
use vulkan_wsi_tizen.Display.Capabilities.{
  AreInts, Answers, PlaneCapabilities, vk_get_display_plane_capabilities_khr,
  plane_capabilities-fits,
}
use mathlib.Core.Path.{subst}
use vulkan_wsi_tizen.Display.Queries.{Listed, IsReady-Listed}
use vulkan_wsi_tizen.Display.Samples.{
  extent, parameters, sample_tdm, calloc, realloc, blank, blank_device, blank-HasArrays, counts_fit,
  gives_modes, modes_of,
}

program : Unit {0}
unfolding new_plane layer_zpos layer_rounds add_tdm_layer built_in store_prop set_up_prop
    set_up_modes set_up_display add_layers add_tdm_output display_fini fini_loop
    vk_physical_device_fini_display init_failed init_loop vk_physical_device_init_display
    same_parameters find_mode_loop custom_mode vk_create_display_mode_khr layers_from outputs_of
    copy_loop deref vk_get_physical_device_display_properties_khr
program = tt

init_display-Initialised_example :
    (r : PhysicalDevice × Bool) × (vk_physical_device_init_display
        (sample_tdm 2)
        calloc
        blank_device
      ≡ some r)
    × Initialised r
init_display-Initialised_example =
    init_display-Initialised (sample_tdm 2) calloc blank_device blank-HasArrays gives_modes
      counts_fit.0 counts_fit.1

sets_up :
    (count self o : ℕ) (old : Display)
    → (set_up_display (sample_tdm count) calloc self o (modes_of o) old).1 ≡ true
unfolding program
sets_up count self o old = ground arith

many-Works : Works (sample_tdm 17) calloc
many-Works = record {
  opened = refl;
  outputs = λ i. (10 + i, refl);
  modes_of = λ o. (modes_of o, refl);
  set_up = sets_up 17;
}

init_display-overflow_example :
    vk_physical_device_init_display (sample_tdm 17) calloc blank_device ≡ none
init_display-overflow_example =
    init_display-overflow (sample_tdm 17) calloc many-Works blank_device 17 refl
      (length-replicate 16 blank) (omega arith)

-- The device with two displays.
abbrev device : PhysicalDevice
device = init_display-Initialised_example.0.0

device-IsReady : IsReady device.display_count device
device-IsReady = init_display-Initialised_example.2.ready

IsReady-Listed_example : Listed device
IsReady-Listed_example = IsReady-Listed device.display_count device device-IsReady

-- The display with two built-in modes.
abbrev display : Display
display = (set_up_display (sample_tdm 2) calloc 0 10 (modes_of 10) blank).0

display-IsUp : IsUp 0 display
display-IsUp =
    set_up_display-IsUp (sample_tdm 2) calloc 0 10 (modes_of 10) blank (sets_up 2 0 10 blank)

vk_create_display_mode_khr-Outcome_example :
    (r : VkResult × Option Pointer × Display) × (vk_create_display_mode_khr realloc 0 display
        (parameters 75000)
      ≡ some r)
    × Outcome realloc 0 display (parameters 75000) r
vk_create_display_mode_khr-Outcome_example =
    vk_create_display_mode_khr-Outcome realloc 0 display (parameters 75000) display-IsUp.valid

built_in_block : display.built_in_modes.block ≡ 1010
unfolding program
built_in_block = refl

realloc_apart : (b n b' : ℕ) → realloc b n ≡ some b' → b' ≢ display.built_in_modes.block
realloc_apart b n b' moved same =
    let there : some (b + 2000) ≡ some b' = moved in
    let sum : b + 2000 ≡ b' = cc there in omega (arith, built_in_block)

vk_create_display_mode_khr-Serves_example :
    (r : VkResult × Option Pointer × Display) × (vk_create_display_mode_khr realloc 0 display
        (parameters 75000)
      ≡ some r)
    × Serves display (parameters 75000) r
vk_create_display_mode_khr-Serves_example =
    vk_create_display_mode_khr-Serves realloc 0 display (parameters 75000) display-IsUp.valid
      realloc_apart

not_found :
    (info : ModeParameters) (n : ℕ) (cells : List DisplayMode)
    → n ≡ length cells
    → find_mode_loop info n 0 cells ≡ some none
    → Misses info 0 n cells
not_found info n cells size searched =
    elim (find_mode_loop-cases info n 0 n cells (omega arith) (omega arith)) [
      | inl (run, misses) ↦ misses
      | inr (h, run, hit) ↦ absurd (cc (sym searched ∙ run))
    ]

-- The display with one custom mode more.
abbrev custom : Display
custom = grown 0 display 2000 (parameters 75000)

no_custom : display.custom_mode_count ≡ 0
unfolding program
no_custom = refl

custom-IsValid : IsValid custom
custom-IsValid =
    grown-IsValid 0 2000 display (parameters 75000) display-IsUp.valid (inr no_custom)
      (λ same. omega (arith, built_in_block))

searches :
    (find_mode_loop (parameters 90000) custom.built_in_mode_count 0 custom.built_in_modes.cells
      ≡ some none)
    × (find_mode_loop (parameters 90000) custom.custom_mode_count 0 custom.custom_modes.cells
        ≡ some none)
    × (find_mode_loop (parameters 75000) custom.built_in_mode_count 0 custom.built_in_modes.cells
        ≡ some none)
    × (get_elem? custom.custom_modes.cells 0 ≡ some (custom_mode 0 2000 0 (parameters 75000)))
    × ((custom_mode 0 2000 0 (parameters 75000)).prop.parameters ≡ parameters 75000)
unfolding program
searches = (refl, refl, refl, refl, refl)

moved-stale_example :
    (vk_create_display_mode_khr realloc 0 custom (parameters 90000)
      ≡ some (
        success,
        some (record { block = 4000; index = custom.custom_mode_count }),
        grown 0 custom 4000 (parameters 90000),
      ))
    × (h : Pointer) × (vk_create_display_mode_khr realloc 0
          (grown 0 custom 4000 (parameters 90000))
          (custom_mode 0 2000 0 (parameters 75000)).prop.parameters
        ≡ some (success, some h, grown 0 custom 4000 (parameters 90000)))
    × (deref (grown 0 custom 4000 (parameters 90000)) h ≡ none)
moved-stale_example =
    moved-stale realloc 0 4000 custom (parameters 90000) custom-IsValid
      (not_found (parameters 90000) _ _ custom-IsValid.built_in_count searches.0)
      (not_found (parameters 90000) _ _ custom-IsValid.custom_count searches.1) refl
      (λ same. omega arith) 0 (custom_mode 0 2000 0 (parameters 75000)) searches.3
      (not_found _ _ _ custom-IsValid.built_in_count (rw searches.4 searches.2))

abbrev device_of : Option (PhysicalDevice × Bool) → PhysicalDevice
device_of none = blank_device
device_of (some r) = r.0

-- The device with two displays, computed.
abbrev computed : PhysicalDevice
computed = device_of (vk_physical_device_init_display (sample_tdm 2) calloc blank_device)

computed-IsReady : IsReady computed.display_count computed
computed-IsReady =
    let same : computed ≡ device = ap device_of init_display-Initialised_example.1 in
    subst (λ (d : PhysicalDevice). IsReady d.display_count d) (sym same) device-IsReady

four_planes : computed.plane_count ≡ 4
unfolding program
four_planes = refl

first_plane : (p : DisplayPlane) × (get_elem? computed.planes 0 ≡ some p)
first_plane = get_elem?_of_lt computed.planes 0 (omega (arith, computed-IsReady.planes_size))

abbrev panel : ℕ → AvailableSize
panel o = record { least = extent 1 1; most = extent 720 1280 }

abbrev zeroed : PlaneCapabilities
zeroed = record {
  supported_alpha = 0;
  min_src_position = extent 0 0;
  max_src_position = extent 0 0;
  min_src_extent = extent 0 0;
  max_src_extent = extent 0 0;
  min_dst_position = extent 0 0;
  max_dst_position = extent 0 0;
  min_dst_extent = extent 0 0;
  max_dst_extent = extent 0 0;
}

panel_ints :
    (o : ℕ) (size : AvailableSize) → (sample_tdm 2).get_available_size o ≡ some size → AreInts size
panel_ints o size known =
    let same : panel o ≡ size = cc known in
    let least = ap (λ (s : AvailableSize). s.least) same in
    record {
      width = omega (arith, ap (λ (e : Extent). e.width) least);
      height = omega (arith, ap (λ (e : Extent). e.height) least);
    }

plane_capabilities-fits_example :
    (r : VkResult × PlaneCapabilities) × (vk_get_display_plane_capabilities_khr
        (sample_tdm 2)
        computed
        0
        zeroed
      ≡ some r)
    × Answers (sample_tdm 2) computed first_plane.0 zeroed r
plane_capabilities-fits_example =
    plane_capabilities-fits (sample_tdm 2) computed 0 first_plane.0 zeroed computed-IsReady
      (omega (arith, four_planes)) first_plane.1 panel_ints
