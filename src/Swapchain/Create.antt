-- ===== src/Swapchain/Create.antt =====
-- What `vk_CreateSwapchainKHR` of src/wsi/swapchain.c returns, and what it gives back on an error.
use vulkan_wsi_tizen.Common.{
  ℕ, ◌+◌, ◌≡◌, Option, refl, inl, inr, Bool, true, false, none, some, List, [], ◌∷◌, map, arith,
  length, if◌then◌else◌, Bool-cases, Option-cases,
}
use vulkan_wsi_tizen.Enumerate.Results.{
  VkResult, success, error_out_of_host_memory, error_surface_lost_khr, error_extension_not_present,
  is_success,
}
use vulkan_wsi_tizen.Formats.{TbmFormat, get_tbm_format}
use vulkan_wsi_tizen.Surface.{Surface}
use vulkan_wsi_tizen.Swapchain.{
  Buffer, Swapchain, alloc_chain, free_chain, deinit, alloc_buffers, create_image, untouched, null,
  handle, CreateInfo, Environment, Created, is_known_platform, fail, image_loop, create_buffers,
  create_backend, image_after, vk_create_swapchain_khr,
}

-- The image of a buffer after the creation: that which the driver made, or what was in the array
-- before if the driver made none.
abbrev pub image_of : Option (ℕ → Option ℕ) → (unset : ℕ) → ℕ → ℕ
image_of none unset tbm = unset
image_of (some create) unset tbm = elim (create tbm) [ none ↦ unset | some image ↦ image ]

-- The buffers from index `i` on.
abbrev pub buffers_from : Option (ℕ → Option ℕ) → (ℕ → ℕ) → ℕ → List ℕ → List Buffer
buffers_from create unset i [] = []
buffers_from create unset i (tbm ∷ tbms) =
    record { tbm = tbm; image = image_of create (unset i) tbm }
    ∷ buffers_from create unset (i + 1) tbms

-- Whether there is a function to make images, or none to make.
abbrev pub can_create : Option (ℕ → Option ℕ) → List ℕ → Bool
can_create create [] = true
can_create none (tbm ∷ tbms) = false
can_create (some create) (tbm ∷ tbms) = true

-- The swapchain over the buffers of the backend.
abbrev pub chain_of : Environment → Surface → Swapchain
chain_of env surface = record {
  surface = surface;
  buffer_count = length env.get_buffers.1;
  buffers = buffers_from env.create_presentable_image env.unset_image 0 env.get_buffers.1;
}

image_after-eq :
    (create : ℕ → Option ℕ) (unset tbm : ℕ)
    → image_after unset (create tbm) ≡ image_of (some create) unset tbm
unfolding image_after
image_after-eq create unset tbm = elim (Option-cases (create tbm)) [
  | inl failed ↦ ground arith
  | inr (image, made) ↦ ground arith
]

some_loop-eq :
    (create : ℕ → Option ℕ) (unset : ℕ → ℕ) (i : ℕ) (tbms : List ℕ)
    → image_loop (some create) unset i tbms
      ≡ some (buffers_from (some create) unset i tbms, map create_image tbms)
unfolding image_loop
some_loop-eq create unset i [] = refl
some_loop-eq create unset i (tbm ∷ tbms) =
    rw (some_loop-eq create unset (i + 1) tbms, image_after-eq create (unset i) tbm) refl

pub image_loop-eq :
    (create : Option (ℕ → Option ℕ)) (unset : ℕ → ℕ) (i : ℕ) (tbms : List ℕ)
    → can_create create tbms ≡ true
    → image_loop create unset i tbms
      ≡ some (buffers_from create unset i tbms, map create_image tbms)
unfolding image_loop
image_loop-eq create unset i [] can = refl
image_loop-eq none unset i (tbm ∷ tbms) can = absurd (cc can)
image_loop-eq (some create) unset i (tbm ∷ tbms) can = some_loop-eq create unset i (tbm ∷ tbms)

pub image_loop-fault :
    (create : Option (ℕ → Option ℕ)) (unset : ℕ → ℕ) (i : ℕ) (tbms : List ℕ)
    → can_create create tbms ≡ false
    → image_loop create unset i tbms ≡ none
unfolding image_loop
image_loop-fault create unset i [] can = absurd (cc can)
image_loop-fault none unset i (tbm ∷ tbms) can = refl
image_loop-fault (some create) unset i (tbm ∷ tbms) can = absurd (cc can)

-- Why the swapchain is given up after the choice of the format: the backend is not initialised, or it
-- gives no buffers, or there is no memory for their array.
pub data Reason (env : Environment) (init_result : VkResult) : VkResult → Type 0 where
  not_initialised : is_success init_result ≡ false → Reason env init_result init_result
  no_buffers :
      init_result ≡ success
      → is_success env.get_buffers.0 ≡ false
      → Reason env init_result env.get_buffers.0
  no_buffer_memory :
      init_result ≡ success
      → env.get_buffers.0 ≡ success
      → env.has_buffer_memory (length env.get_buffers.1) ≡ false
      → Reason env init_result error_out_of_host_memory

-- The step that fails first, if one does, and how the call ends: all steps are tried in this order.
pub data Outcome (env : Environment) (info : CreateInfo) : Option Created → Type 0 where
  bad_platform :
      is_known_platform info.surface ≡ false
      → Outcome env info (some (error_extension_not_present, untouched, []))
  no_chain :
      is_known_platform info.surface ≡ true
      → env.has_chain_memory ≡ false
      → Outcome env info (some (error_out_of_host_memory, untouched, []))
  bad_format :
      is_known_platform info.surface ≡ true
      → env.has_chain_memory ≡ true
      → get_tbm_format info.image_format info.composite_alpha ≡ none
      → Outcome env info (some (error_surface_lost_khr, untouched, alloc_chain ∷ []))
  bad_backend :
      (format : TbmFormat) (error : VkResult)
      → get_tbm_format info.image_format info.composite_alpha ≡ some format
      → Reason env (env.init info.surface format).0 error
      → Outcome env info (
          some (
            error,
            null,
            alloc_chain
                ∷ (if (env.init info.surface format).1
                    then deinit ∷ free_chain ∷ []
                    else free_chain ∷ []),
          ))
  no_function :
      (format : TbmFormat)
      → get_tbm_format info.image_format info.composite_alpha ≡ some format
      → (env.init info.surface format).0 ≡ success
      → env.get_buffers.0 ≡ success
      → env.has_buffer_memory (length env.get_buffers.1) ≡ true
      → can_create env.create_presentable_image env.get_buffers.1 ≡ false
      → Outcome env info none
  created :
      (format : TbmFormat)
      → get_tbm_format info.image_format info.composite_alpha ≡ some format
      → (env.init info.surface format).0 ≡ success
      → env.get_buffers.0 ≡ success
      → env.has_buffer_memory (length env.get_buffers.1) ≡ true
      → can_create env.create_presentable_image env.get_buffers.1 ≡ true
      → Outcome env info (
          some (
            success,
            handle (chain_of env info.surface),
            alloc_chain ∷ alloc_buffers ∷ map create_image env.get_buffers.1,
          ))

is_success-eq : (res : VkResult) → is_success res ≡ true → res ≡ success
is_success-eq success h = refl
is_success-eq _ h = cc

fail-eq :
    (error : VkResult) (has_deinit : Bool)
    → fail error has_deinit (alloc_chain ∷ []) ≡ (
      error,
      null,
      alloc_chain ∷ (if has_deinit then deinit ∷ free_chain ∷ [] else free_chain ∷ []),
    )
unfolding fail
fail-eq error true = refl
fail-eq error false = refl

Outcome-eq :
    (env : Environment) (info : CreateInfo) (r r' : Option Created)
    → r ≡ r'
    → Outcome env info r'
    → Outcome env info r
Outcome-eq env info r r' e outcome = rw e outcome

create_backend-Outcome :
    (env : Environment) (info : CreateInfo) (format : TbmFormat)
    → get_tbm_format info.image_format info.composite_alpha ≡ some format
    → Outcome env info (create_backend env info.surface format)
unfolding create_backend create_buffers
create_backend-Outcome env info format known =
    let (error, has_deinit) = env.init info.surface format in
    elim (Bool-cases (is_success error)) [
      | inr failed ↦
          Outcome-eq env info _ _ (ground (arith, fail-eq error has_deinit))
            (bad_backend format error known (not_initialised failed))
      | inl fine ↦ elim (Bool-cases (is_success (env.get_buffers.0))) [
        | inr failed ↦
            Outcome-eq env info _ _ (ground (arith, fail-eq (env.get_buffers.0) has_deinit)) (
              bad_backend format (env.get_buffers.0) known
                (no_buffers (is_success-eq error fine) failed))
        | inl got ↦ elim (Bool-cases (env.has_buffer_memory (length env.get_buffers.1))) [
          | inr full ↦
              Outcome-eq env info _ _ (ground (arith, fail-eq error_out_of_host_memory has_deinit))
                (bad_backend format error_out_of_host_memory known (
                  no_buffer_memory (is_success-eq error fine) (is_success-eq env.get_buffers.0 got)
                    full))
          | inl room ↦
              let make = env.create_presentable_image in
              let tbms = env.get_buffers.1 in
              elim (Bool-cases (can_create make tbms)) [
                | inr missing ↦
                    let loop = image_loop-fault make env.unset_image 0 tbms missing in
                    Outcome-eq env info _ _ (ground (arith, loop)) (
                      no_function format known (is_success-eq error fine)
                        (is_success-eq env.get_buffers.0 got) room missing)
                | inl there ↦
                    let loop = image_loop-eq make env.unset_image 0 tbms there in
                    Outcome-eq env info _ _ (ground (arith, loop)) (
                      created format known (is_success-eq error fine)
                        (is_success-eq env.get_buffers.0 got) room there)
              ]
        ]
      ]
    ]

-- Creating a swapchain ends in one of six ways. For an unknown platform, or without memory, it does
-- nothing; for a format that is not supported it fails with the memory of the swapchain allocated and
-- not freed; if the backend or the memory for the buffers fails, it gives the null handle, after
-- `deinit` if the backend had got so far, and frees the swapchain; if the driver has no function to
-- make images and there is a buffer, it calls `NULL`; and else it succeeds with a swapchain that has
-- an entry for each buffer of the backend, in their order, with the image that the driver made for
-- it, or, where the driver failed to, with what the array happened to hold.
pub vk_create_swapchain_khr-Outcome :
    (env : Environment) (info : CreateInfo) → Outcome env info (vk_create_swapchain_khr env info)
unfolding vk_create_swapchain_khr
vk_create_swapchain_khr-Outcome env info = elim (Bool-cases (is_known_platform info.surface)) [
  | inr other ↦ Outcome-eq env info _ _ (ground arith) (bad_platform other)
  | inl known ↦ elim (Bool-cases (env.has_chain_memory)) [
    | inr full ↦ Outcome-eq env info _ _ (ground arith) (no_chain known full)
    | inl room ↦ elim (Option-cases (get_tbm_format info.image_format info.composite_alpha)) [
      | inl unsupported ↦ Outcome-eq env info _ _ (ground arith) (bad_format known room unsupported)
      | inr (format, supported) ↦
          Outcome-eq env info _ _ (ground arith) (create_backend-Outcome env info format supported)
    ]
  ]
]
