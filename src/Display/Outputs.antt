-- ===== src/Display/Outputs.antt =====
-- `vk_physical_device_init_display` and `vk_physical_device_fini_display` of src/wsi/display.c,
-- with all the outputs of TDM.
use vulkan_wsi_tizen.Common.{
  ℕ, zero, suc, ◌+◌, ◌≤◌, ◌<◌, ◌≡◌, refl, ◌∙◌, inl, inr, Bool, true, false, Option, none, some,
  List, [], arith, length, get_elem?, get_elem?_of_lt, Bool-cases, Option-cases, ◌++◌, ◌⊎◌,
}
use vulkan_wsi_tizen.Display.{
  vk_max_display_count, vk_max_plane_count, Display, DisplayPlane, ModeParameters, PhysicalDevice,
}
use vulkan_wsi_tizen.Display.Setup.{
  Tdm, layer_rounds, add_tdm_output, fini_loop, vk_physical_device_fini_display, init_failed,
  init_loop, vk_physical_device_init_display, display_fini,
}
use vulkan_wsi_tizen.Display.Ready.{IsReady}
use vulkan_wsi_tizen.Display.Adding.{add_tdm_output-Added}

-- The rounds of the loop over the layers of an output: as many as it has layers, and as many as it has
-- modes if TDM does not give the count.
unfoldable pub layers_of : Tdm → ℕ → ℕ
layers_of tdm output = elim (tdm.get_available_modes output) [
  | none ↦ 0
  | some modes ↦ layer_rounds tdm output (length modes)
]

-- That TDM gives the modes of every output.
abbrev pub GivesModes : Tdm → Type 0
GivesModes tdm =
    (i output : ℕ)
    → tdm.get_output i ≡ some output
    → (modes : List ModeParameters) × (tdm.get_available_modes output ≡ some modes)

-- The sum of these rounds over the outputs from index `i`, up to the first that TDM does not give.
unfoldable pub layers_from : Tdm → (n i : ℕ) → ℕ
layers_from tdm zero i = 0
layers_from tdm (suc n) i = elim (tdm.get_output i) [
  | none ↦ 0
  | some output ↦ layers_of tdm output + layers_from tdm n (i + 1)
]

fini_loop_total :
    (n i : ℕ) (displays : List Display)
    → i + n ≤ length displays
    → (freed : List ℕ) × (fini_loop n i displays ≡ some freed)
unfolding fini_loop
fini_loop_total zero i displays fits = ([], refl)
fini_loop_total (suc n) i displays fits =
    let (d, at) = get_elem?_of_lt displays i (omega arith) in
    let (freed, run) = fini_loop_total n (i + 1) displays (omega arith) in
    (display_fini d ++ freed, rw (at, run))

-- What initialisation leaves: a well formed device, and an empty one without a connection if it fails.
pub record Initialised (r : PhysicalDevice × Bool) : Type 0 where
  pub ready : IsReady r.0.display_count r.0
  pub empty :
      r.1 ≡ false → (r.0.tdm_display ≡ none) × (r.0.display_count ≡ 0) × (r.0.plane_count ≡ 0)

init_failed-Initialised :
    (bound : ℕ) (pdev : PhysicalDevice)
    → IsReady bound pdev
    → (r : PhysicalDevice × Bool) × (init_failed pdev ≡ some r) × Initialised r
unfolding init_failed vk_physical_device_fini_display
init_failed-Initialised bound pdev ok =
    let (freed, run) =
      fini_loop_total pdev.display_count 0 pdev.displays
        (omega (arith, ok.displays_size, ok.display_le)) in
    (
      (record pdev { tdm_display = none; display_count = 0; plane_count = 0 }, false),
      rw run,
      record {
        ready = record {
          displays_size = ok.displays_size;
          planes_size = ok.planes_size;
          display_le = omega arith;
          plane_le = omega arith;
          wide = ok.wide;
          owned = λ j p below at. absurd (omega arith);
          ready = λ i d below at. absurd (omega arith);
        };
        empty = λ _. (refl, refl, refl);
      },
    )

init_loop-none :
    (tdm : Tdm) (calloc : ℕ → ℕ → Option ℕ) (n i : ℕ) (pdev : PhysicalDevice)
    → tdm.get_output i ≡ none
    → init_loop tdm calloc (suc n) i pdev ≡ init_failed pdev
unfolding init_loop
init_loop-none tdm calloc n i pdev missing = ground arith

init_loop-some :
    (tdm : Tdm) (calloc : ℕ → ℕ → Option ℕ) (n i output : ℕ) (pdev p1 : PhysicalDevice)
    → tdm.get_output i ≡ some output
    → add_tdm_output tdm calloc pdev output ≡ some p1
    → init_loop tdm calloc (suc n) i pdev ≡ init_loop tdm calloc n (i + 1) p1
unfolding init_loop
init_loop-some tdm calloc n i output pdev p1 found run = ground arith

layers_from-some :
    (tdm : Tdm) (n i output : ℕ)
    → tdm.get_output i ≡ some output
    → layers_from tdm (suc n) i ≡ layers_of tdm output + layers_from tdm n (i + 1)
unfolding layers_from
layers_from-some tdm n i output found = ground arith

layers_of-eq :
    (tdm : Tdm) (output : ℕ) (modes : List ModeParameters)
    → tdm.get_available_modes output ≡ some modes
    → layers_of tdm output ≡ layer_rounds tdm output (length modes)
unfolding layers_of
layers_of-eq tdm output modes known = ground arith

init_loop-Initialised :
    (tdm : Tdm) (calloc : ℕ → ℕ → Option ℕ)
    → GivesModes tdm
    → (n i : ℕ) (pdev : PhysicalDevice) → IsReady pdev.display_count pdev
    → pdev.display_count + n ≤ vk_max_display_count
    → pdev.plane_count + layers_from tdm n i ≤ vk_max_plane_count
    → (r : PhysicalDevice × Bool) × (init_loop tdm calloc n i pdev ≡ some r) × Initialised r
unfolding init_loop
init_loop-Initialised tdm calloc gives zero i pdev ok room plane_room =
    ((pdev, true), refl, record { ready = ok; empty = λ h. cc })
init_loop-Initialised tdm calloc gives (suc n) i pdev ok room plane_room =
    elim (Option-cases (tdm.get_output i)) [
      | inl missing ↦
          let (r, run, fine) = init_failed-Initialised pdev.display_count pdev ok in
          (r, init_loop-none tdm calloc n i pdev missing ∙ run, fine)
      | inr (output, found) ↦
          let sum = layers_from-some tdm n i output found in
          let (modes, known) = gives i output found in
          let rounds = layers_of-eq tdm output modes known in
          let (p1, run, added) =
            add_tdm_output-Added tdm calloc pdev output ok (omega arith) modes known
              (omega (arith, sum, rounds)) in
          let (r, run', fine) =
            init_loop-Initialised tdm calloc gives n (i + 1) p1 added.ready
              (omega (arith, added.displays)) (omega (arith, sum, rounds, added.planes)) in
          (r, init_loop-some tdm calloc n i output pdev p1 found run ∙ run', fine)
    ]

-- The device arrays before anything is set up.
pub record HasArrays (pdev : PhysicalDevice) : Type 0 where
  pub displays_size : length pdev.displays ≡ vk_max_display_count
  pub planes_size : length pdev.planes ≡ vk_max_plane_count
  pub wide :
      (j : ℕ) (p : DisplayPlane)
      → get_elem? pdev.planes j ≡ some p
      → 0 < length p.supported_displays

-- The number of outputs that TDM reports.
unfoldable pub outputs_of : Tdm → ℕ
outputs_of tdm = elim (tdm.get_output_count) [ none ↦ 0 | some n ↦ n ]

abbrev opened_device : Tdm → PhysicalDevice → PhysicalDevice
opened_device tdm pdev = record pdev {
  tdm_display = tdm.display_init.0;
  display_count = 0;
  plane_count = 0;
}

init_display-cases :
    (tdm : Tdm) (calloc : ℕ → ℕ → Option ℕ) (pdev : PhysicalDevice)
    → (vk_physical_device_init_display tdm calloc pdev ≡ init_failed (opened_device tdm pdev))
      ⊎ (vk_physical_device_init_display tdm calloc pdev
          ≡ init_loop tdm calloc (outputs_of tdm) 0 (opened_device tdm pdev))
unfolding vk_physical_device_init_display outputs_of
init_display-cases tdm calloc pdev = elim (Bool-cases (tdm.display_init.1)) [
  | inr failed ↦ inl (ground arith)
  | inl opened ↦ elim (Option-cases (tdm.get_output_count)) [
    | inl unknown ↦ inl (ground arith)
    | inr (n, known) ↦ inr (ground arith)
  ]
]

opened-IsReady :
    (tdm : Tdm) (pdev : PhysicalDevice) → HasArrays pdev → IsReady 0 (opened_device tdm pdev)
opened-IsReady tdm pdev arrays = record {
  displays_size = arrays.displays_size;
  planes_size = arrays.planes_size;
  display_le = omega arith;
  plane_le = omega arith;
  wide = arrays.wide;
  owned = λ j p below at. absurd (omega arith);
  ready = λ i d below at. absurd (omega arith);
}

-- With at most 16 outputs, at most 64 rounds of the loops over their layers, and the modes of every
-- output given, initialisation never writes outside the arrays, whichever of the other queries of
-- TDM fail: those of the connection, the outputs, their properties, the counts of the layers, the
-- layers and their positions. Where a count of layers is not given, the rounds are as many as the
-- output has modes. It leaves a well formed device: every plane shows, and
-- supports just, a display that is set up, and every mode holds its own address. If it reports
-- failure then the device is empty and has no connection.
pub init_display-Initialised :
    (tdm : Tdm) (calloc : ℕ → ℕ → Option ℕ) (pdev : PhysicalDevice)
    → HasArrays pdev
    → GivesModes tdm
    → outputs_of tdm ≤ vk_max_display_count
    → layers_from tdm (outputs_of tdm) 0 ≤ vk_max_plane_count
    → (r : PhysicalDevice × Bool) × (vk_physical_device_init_display tdm calloc pdev ≡ some r)
      × Initialised r
init_display-Initialised tdm calloc pdev arrays gives few few_layers =
    let p0 = opened_device tdm pdev in
    let ok = opened-IsReady tdm pdev arrays in
    elim (init_display-cases tdm calloc pdev) [
      | inl failed ↦ let (r, run, fine) = init_failed-Initialised 0 p0 ok in (r, failed ∙ run, fine)
      | inr opened ↦
          let (r, run, fine) =
            init_loop-Initialised tdm calloc gives (outputs_of tdm) 0 p0 ok (omega arith)
              (omega arith) in
          (r, opened ∙ run, fine)
    ]
