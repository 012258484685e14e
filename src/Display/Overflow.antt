-- ===== src/Display/Overflow.antt =====
-- src/wsi/display.c does not compare the number of outputs with VK_MAX_DISPLAY_COUNT.
use vulkan_wsi_tizen.Common.{
  ℕ, zero, suc, ◌+◌, ◌≤◌, ◌<◌, ◌≡◌, inl, inr, true, Option, none, some, arith, List, length,
  get_elem?, set, length-set, Option-cases, >>=-eq-some, lt_of_some,
}
use vulkan_wsi_tizen.Display.{vk_max_display_count, Display, ModeParameters, PhysicalDevice}
use vulkan_wsi_tizen.Display.Setup.{
  Tdm, layer_rounds, add_tdm_layer, set_up_display, add_layers, add_tdm_output, init_loop,
  vk_physical_device_init_display,
}

-- Every output is there, and every step of setting it up succeeds.
pub record Works (tdm : Tdm) (calloc : ℕ → ℕ → Option ℕ) : Type 0 where
  pub opened : tdm.display_init.1 ≡ true
  pub outputs : (i : ℕ) → (o : ℕ) × (tdm.get_output i ≡ some o)
  pub modes_of : (o : ℕ) → (modes : List ModeParameters) × (tdm.get_available_modes o ≡ some modes)
  pub set_up :
      (self o : ℕ) (old : Display) → (set_up_display tdm calloc self o (modes_of o).0 old).1 ≡ true

add_layers-keeps :
    (tdm : Tdm) (o self n i : ℕ) (p q : PhysicalDevice)
    → add_layers tdm o self n i p ≡ some q
    → (q.display_count ≡ p.display_count) × (length q.displays ≡ length p.displays)
unfolding add_layers add_tdm_layer
add_layers-keeps tdm o self zero i p q run = ground arith
add_layers-keeps tdm o self (suc n) i p q run =
    let (p1, step, rest) = >>=-eq-some (add_tdm_layer tdm p (tdm.get_layer o i) self) _ run in
    let (plane, at, new) = >>=-eq-some (get_elem? p.planes p.plane_count) _ step in
    ground (arith, add_layers-keeps tdm o self n (i + 1) p1 q rest)

-- An output that works is counted, unless the run is a fault already.
add_tdm_output-counts :
    (tdm : Tdm) (calloc : ℕ → ℕ → Option ℕ)
    → Works tdm calloc
    → (p q : PhysicalDevice) (o : ℕ) → add_tdm_output tdm calloc p o ≡ some q
    → (p.display_count < length p.displays)
      × (q.display_count ≡ p.display_count + 1)
      × (length q.displays ≡ length p.displays)
unfolding add_tdm_output
add_tdm_output-counts tdm calloc works p q o run =
    let k = p.display_count in
    let (old, at, rest) = >>=-eq-some (get_elem? p.displays k) _ run in
    let done = works.set_up k o old in
    let (modes, known) = works.modes_of o in
    let d = (set_up_display tdm calloc k o modes old).0 in
    let p1 = record p { displays = set p.displays k d } in
    let n = layer_rounds tdm o (length modes) in
    let (p2, layers, new) = >>=-eq-some (add_layers tdm o k n 0 p1) _ (rw (known, done) at rest) in
    let kept = add_layers-keeps tdm o k n 0 p1 p2 layers in
    (lt_of_some p.displays k old at, ground arith, ground (arith, length-set p.displays k d))

init_loop-fault :
    (tdm : Tdm) (calloc : ℕ → ℕ → Option ℕ)
    → Works tdm calloc
    → (n i : ℕ) (p : PhysicalDevice) → p.display_count ≤ length p.displays
    → length p.displays < p.display_count + n
    → init_loop tdm calloc n i p ≡ none
unfolding init_loop
init_loop-fault tdm calloc works zero i p le over = absurd (omega arith)
init_loop-fault tdm calloc works (suc n) i p le over =
    let (o, found) = works.outputs i in
    elim (Option-cases (add_tdm_output tdm calloc p o)) [
      | inl fault ↦ ground arith
      | inr (q, run) ↦
          let (lt, counted, same) = add_tdm_output-counts tdm calloc works p q o run in
          ground (
            arith,
            init_loop-fault tdm calloc works n (i + 1) q (omega (arith, lt, counted, same))
                (omega (arith, counted, same)),
          )
    ]

-- If TDM reports more than 16 outputs and each of them can be set up, then
-- `vk_physical_device_init_display` writes behind the array of displays or of planes.
pub init_display-overflow :
    (tdm : Tdm) (calloc : ℕ → ℕ → Option ℕ)
    → Works tdm calloc
    → (pdev : PhysicalDevice) (n : ℕ) → tdm.get_output_count ≡ some n
    → length pdev.displays ≡ vk_max_display_count
    → vk_max_display_count < n
    → vk_physical_device_init_display tdm calloc pdev ≡ none
unfolding vk_physical_device_init_display
init_display-overflow tdm calloc works pdev n known size many =
    let p0 = record pdev { tdm_display = tdm.display_init.0; display_count = 0; plane_count = 0 } in
    ground
      (arith, works.opened, init_loop-fault tdm calloc works n 0 p0 (omega arith) (omega arith))
