-- ===== src/Display/Modes/Create.antt =====
-- What `vk_CreateDisplayModeKHR` of src/wsi/display.c returns and changes.
use vulkan_wsi_tizen.Common.{
  ℕ, zero, suc, ◌+◌, ◌≤◌, ◌<◌, ◌≡◌, ◌≢◌, refl, sym, ap, ◌∙◌, inl, inr, Option, none, some, List, [],
  ◌∷◌, ◌++◌, arith, length, take, get_elem?, ◌==◌, if◌then◌else◌, Option-cases, lt_of_some,
}
use vulkan_wsi_tizen.Enumerate.Results.{VkResult, success, error_out_of_host_memory}
use vulkan_wsi_tizen.Display.{Pointer, ModeParameters, DisplayMode, ModeArray, Display}
use vulkan_wsi_tizen.Display.Modes.{custom_mode, vk_create_display_mode_khr}
use vulkan_wsi_tizen.Display.Modes.Find.{Hit, Misses, find_mode_loop-cases}

-- Each mode of an array holds its own address.
abbrev pub SelfHandles : ModeArray → Type 0
SelfHandles a =
    (i : ℕ) (m : DisplayMode)
    → get_elem? a.cells i ≡ some m
    → m.prop.display_mode ≡ record { block = a.block; index = i }

-- The counts are those of the arrays, and the custom modes lie in a block of their own.
pub record IsValid (d : Display) : Type 0 where
  pub built_in_count : d.built_in_mode_count ≡ length d.built_in_modes.cells
  pub custom_count : d.custom_mode_count ≡ length d.custom_modes.cells
  pub apart : 0 < d.custom_mode_count → d.built_in_modes.block ≢ d.custom_modes.block
  pub built_in_handles : SelfHandles d.built_in_modes
  pub custom_handles : SelfHandles d.custom_modes

-- What a handle points at while its block is alive.
unfoldable pub deref : Display → Pointer → Option DisplayMode
deref d h =
    if h.block == d.built_in_modes.block
    then get_elem? d.built_in_modes.cells h.index
    else if h.block == d.custom_modes.block
    then get_elem? d.custom_modes.cells h.index
    else none

module _ {A : Type 0} where
  pub get_elem?-append_left :
      (xs ys : List A) (i : ℕ) → i < length xs → get_elem? (xs ++ ys) i ≡ get_elem? xs i
  get_elem?-append_left [] ys i h = absurd (omega arith)
  get_elem?-append_left (x ∷ xs) ys zero h = refl
  get_elem?-append_left (x ∷ xs) ys (suc i) h = get_elem?-append_left xs ys i (omega arith)

  pub get_elem?-append_length :
      (xs : List A) (x : A) (i : ℕ) → i ≡ length xs → get_elem? (xs ++ x ∷ []) i ≡ some x
  get_elem?-append_length [] x zero h = refl
  get_elem?-append_length [] x (suc i) h = absurd (omega arith)
  get_elem?-append_length (y ∷ xs) x zero h = absurd (omega arith)
  get_elem?-append_length (y ∷ xs) x (suc i) h = get_elem?-append_length xs x i (omega arith)

  pub get_elem?-of_length_le : (xs : List A) (i : ℕ) → length xs ≤ i → get_elem? xs i ≡ none
  get_elem?-of_length_le [] i h = refl
  get_elem?-of_length_le (x ∷ xs) zero h = absurd (omega arith)
  get_elem?-of_length_le (x ∷ xs) (suc i) h = get_elem?-of_length_le xs i (omega arith)

  pub take-of_length_le : (n : ℕ) (xs : List A) → length xs ≤ n → take n xs ≡ xs
  take-of_length_le zero [] h = refl
  take-of_length_le zero (x ∷ xs) h = absurd (omega arith)
  take-of_length_le (suc n) [] h = refl
  take-of_length_le (suc n) (x ∷ xs) h = ap (λ ys. x ∷ ys) (take-of_length_le n xs (omega arith))

-- The ways in which the function ends.
pub data Outcome (realloc : ℕ → ℕ → Option ℕ) (self : ℕ) (d : Display) (info : ModeParameters)
    : VkResult × Option Pointer × Display → Type 0 where
  known_built_in :
      (h : Pointer)
      → Hit info d.built_in_modes.cells h
      → Outcome realloc self d info (success, some h, d)
  known_custom :
      (h : Pointer)
      → Misses info 0 d.built_in_mode_count d.built_in_modes.cells
      → Hit info d.custom_modes.cells h
      → Outcome realloc self d info (success, some h, d)
  no_memory :
      Misses info 0 d.built_in_mode_count d.built_in_modes.cells
      → Misses info 0 d.custom_mode_count d.custom_modes.cells
      → realloc d.custom_modes.block (d.custom_mode_count + 1) ≡ none
      → Outcome realloc self d info (error_out_of_host_memory, none, d)
  added :
      (block : ℕ)
      → Misses info 0 d.built_in_mode_count d.built_in_modes.cells
      → Misses info 0 d.custom_mode_count d.custom_modes.cells
      → realloc d.custom_modes.block (d.custom_mode_count + 1) ≡ some block
      → Outcome realloc self d info (
        success,
        some (record { block = block; index = d.custom_mode_count }),
        record d {
          custom_mode_count = d.custom_mode_count + 1;
          custom_modes = record {
            block = block;
            cells = d.custom_modes.cells ++ custom_mode self block d.custom_mode_count info ∷ [];
          };
        },
      )

-- On a valid display the function never faults and ends in one of four ways: it returns the handle
-- of a built-in mode with the parameters, or of a custom one if no built-in mode has them, or it
-- has no memory and changes nothing, or it adds one custom mode with the parameters that no mode
-- had.
pub vk_create_display_mode_khr-Outcome :
    (realloc : ℕ → ℕ → Option ℕ) (self : ℕ) (d : Display) (info : ModeParameters)
    → IsValid d
    → (r : VkResult × Option Pointer × Display) × (vk_create_display_mode_khr realloc self d info
        ≡ some r)
      × Outcome realloc self d info r
unfolding vk_create_display_mode_khr custom_mode
vk_create_display_mode_khr-Outcome realloc self d info valid =
    let whole : take d.custom_mode_count d.custom_modes.cells ≡ d.custom_modes.cells =
      take-of_length_le _ _ (omega arith) in
    elim (find_mode_loop-cases info d.built_in_mode_count 0 d.built_in_mode_count
      d.built_in_modes.cells (omega arith) (omega arith)) [
        | inr (h, run, hit) ↦ (_, rw run, known_built_in h hit)
        | inl (run, misses) ↦
            elim (find_mode_loop-cases info d.custom_mode_count 0 d.custom_mode_count
              d.custom_modes.cells (omega arith) (omega arith)) [
                | inr (h, run', hit) ↦ (_, rw (run, run'), known_custom h misses hit)
                | inl (run', misses') ↦
                    elim (Option-cases (realloc d.custom_modes.block (d.custom_mode_count + 1))) [
                      | inl full ↦ (_, rw (run, run', full), no_memory misses misses' full)
                      | inr (block, room) ↦
                          (_, rw (run, run', room, whole), added block misses misses' room)
                    ]
              ]
      ]

-- The display after one more custom mode in `block`.
abbrev pub grown : ℕ → Display → ℕ → ModeParameters → Display
grown self d block info = record d {
  custom_mode_count = d.custom_mode_count + 1;
  custom_modes = record {
    block = block;
    cells = d.custom_modes.cells ++ custom_mode self block d.custom_mode_count info ∷ [];
  };
}

-- Parameters that no mode has are added where there is memory.
pub create-grown :
    (realloc : ℕ → ℕ → Option ℕ) (self block : ℕ) (d : Display) (info : ModeParameters)
    → IsValid d
    → Misses info 0 d.built_in_mode_count d.built_in_modes.cells
    → Misses info 0 d.custom_mode_count d.custom_modes.cells
    → realloc d.custom_modes.block (d.custom_mode_count + 1) ≡ some block
    → vk_create_display_mode_khr realloc self d info
      ≡ some (
        success,
        some (record { block = block; index = d.custom_mode_count }),
        grown self d block info,
      )
create-grown realloc self block d info valid misses misses' room =
    let (r, run, outcome) = vk_create_display_mode_khr-Outcome realloc self d info valid in
    run ∙ ap some (only outcome)
  where
    within :
        {cells : List DisplayMode} {n : ℕ} {h : Pointer}
        → n ≡ length cells
        → Misses info 0 n cells
        → Hit info cells h
        → ⊥
    within {cells} size none_there hit =
        none_there hit.index hit.mode (omega arith)
          (omega (arith, size, lt_of_some cells hit.index hit.mode hit.at)) hit.at hit.parameters

    only :
        {r : VkResult × Option Pointer × Display}
        → Outcome realloc self d info r
        → r ≡ (
          success,
          some (record { block = block; index = d.custom_mode_count }),
          grown self d block info,
        )
    only (known_built_in h hit) = absurd (within valid.built_in_count misses hit)
    only (known_custom h _ hit) = absurd (within valid.custom_count misses' hit)
    only (no_memory _ _ full) = absurd (cc (sym full ∙ room))
    only (added block' _ _ room') =
        let both : some block' ≡ some block = sym room' ∙ room in
        let same : block' ≡ block = cc both in rw same

-- A handle that is returned points at a mode with the parameters; without one nothing has changed.
abbrev pub Serves : Display → ModeParameters → VkResult × Option Pointer × Display → Type 0
Serves d info (res, some h, d') =
    (res ≡ success)
    × (d'.built_in_modes ≡ d.built_in_modes)
    × (m : DisplayMode) × (deref d' h ≡ some m)
    × (m.prop.parameters ≡ info)
Serves d info (res, none, d') = (res ≡ error_out_of_host_memory) × (d' ≡ d)

deref-built_in :
    (d : Display) (i : ℕ) (m : DisplayMode)
    → IsValid d
    → get_elem? d.built_in_modes.cells i ≡ some m
    → deref d m.prop.display_mode ≡ some m
unfolding deref
deref-built_in d i m valid at = ground (arith, valid.built_in_handles i m at)

deref-custom :
    (d : Display) (i : ℕ) (m : DisplayMode)
    → IsValid d
    → get_elem? d.custom_modes.cells i ≡ some m
    → deref d m.prop.display_mode ≡ some m
unfolding deref
deref-custom d i m valid at =
    let some_custom : 0 < d.custom_mode_count =
      omega (arith, valid.custom_count, lt_of_some d.custom_modes.cells i m at) in
    ground (arith, valid.custom_handles i m at, valid.apart some_custom)

Outcome-Serves :
    (realloc : ℕ → ℕ → Option ℕ) (self : ℕ) (d : Display) (info : ModeParameters)
    → IsValid d
    → ((b n b' : ℕ) → realloc b n ≡ some b' → b' ≢ d.built_in_modes.block)
    → (r : VkResult × Option Pointer × Display) → Outcome realloc self d info r
    → Serves d info r
unfolding deref custom_mode
Outcome-Serves realloc self d info valid fresh r (known_built_in h hit) = (
  refl,
  refl,
  hit.mode,
  rw (← hit.handle) (deref-built_in d hit.index hit.mode valid hit.at),
  hit.parameters,
)
Outcome-Serves realloc self d info valid fresh r (known_custom h _ hit) = (
  refl,
  refl,
  hit.mode,
  rw (← hit.handle) (deref-custom d hit.index hit.mode valid hit.at),
  hit.parameters,
)
Outcome-Serves realloc self d info valid fresh r (no_memory _ _ _) = (refl, refl)
Outcome-Serves realloc self d info valid fresh r (added block _ _ room) =
    let m = custom_mode self block d.custom_mode_count info in
    (
      refl,
      refl,
      m,
      ground (
        arith,
        fresh d.custom_modes.block (d.custom_mode_count + 1) block room,
        get_elem?-append_length d.custom_modes.cells m d.custom_mode_count valid.custom_count,
      ),
      refl,
    )

-- On a valid display, and where `realloc` never returns the block of the built-in modes, the function
-- returns success with a handle that points at a mode with the parameters asked for, and keeps the
-- built-in modes; or out of memory, no handle, and the display as it was.
pub vk_create_display_mode_khr-Serves :
    (realloc : ℕ → ℕ → Option ℕ) (self : ℕ) (d : Display) (info : ModeParameters)
    → IsValid d
    → ((b n b' : ℕ) → realloc b n ≡ some b' → b' ≢ d.built_in_modes.block)
    → (r : VkResult × Option Pointer × Display) × (vk_create_display_mode_khr realloc self d info
        ≡ some r)
      × Serves d info r
vk_create_display_mode_khr-Serves realloc self d info valid fresh =
    let (r, run, outcome) = vk_create_display_mode_khr-Outcome realloc self d info valid in
    (r, run, Outcome-Serves realloc self d info valid fresh r outcome)
