-- ===== src/Swapchain/Destroy.antt =====
-- `vk_DestroySwapchainKHR` of src/wsi/swapchain.c on what `vk_CreateSwapchainKHR` made.
use mathlib.Core.List.{append_assoc}
use vulkan_wsi_tizen.Common.{
  ℕ, suc, ◌+◌, ◌≡◌, refl, ap, ◌∙◌, true, Option, some, List, [], ◌∷◌, ◌++◌, map, arith, length,
  get_elem?,
}
use vulkan_wsi_tizen.Enumerate.Results.{VkResult}
use vulkan_wsi_tizen.Surface.{Surface}
use vulkan_wsi_tizen.Swapchain.{
  Buffer, Swapchain, Event, alloc_chain, free_chain, deinit, alloc_buffers, free_buffers,
  create_image, destroy_image, handle, CreateInfo, Environment, Created, vk_create_swapchain_khr,
  destroy_loop, vk_destroy_swapchain_khr,
}
use vulkan_wsi_tizen.Swapchain.Create.{
  buffers_from, image_of, chain_of, Outcome, bad_platform, no_chain, bad_format, bad_backend,
  no_function, created, vk_create_swapchain_khr-Outcome,
}

get_elem?-middle :
    {A : Type 0} (xs ys : List A) (y : A) → get_elem? (xs ++ y ∷ ys) (length xs) ≡ some y
get_elem?-middle [] ys y = refl
get_elem?-middle (x ∷ xs) ys y = get_elem?-middle xs ys y

length-snoc : {A : Type 0} (xs : List A) (y : A) → length (xs ++ y ∷ []) ≡ length xs + 1
length-snoc [] y = refl
length-snoc (x ∷ xs) y = omega (arith, length-snoc xs y)

length-buffers_from :
    (create : Option (ℕ → Option ℕ)) (unset : ℕ → ℕ) (i : ℕ) (tbms : List ℕ)
    → length (buffers_from create unset i tbms) ≡ length tbms
length-buffers_from create unset i [] = refl
length-buffers_from create unset i (tbm ∷ tbms) =
    ap suc (length-buffers_from create unset (i + 1) tbms)

abbrev destroyed : Buffer → Event
destroyed b = destroy_image b.image

-- The loop destroys the images of the buffers that are left.
destroy_loop-map :
    (xs ys : List Buffer)
    → destroy_loop (length ys) (length xs) (xs ++ ys) ≡ some (map destroyed ys)
unfolding destroy_loop
destroy_loop-map xs [] = refl
destroy_loop-map xs (y ∷ ys) =
    let done = destroy_loop-map (xs ++ y ∷ []) ys in
    let rest = rw (length-snoc xs y, append_assoc xs (y ∷ []) ys) at done in
    rw (get_elem?-middle xs ys y, rest) refl

-- The destruction of the image for each buffer from index `i` on.
abbrev pub destroyed_images : Environment → ℕ → List ℕ → List Event
destroyed_images env i [] = []
destroyed_images env i (tbm ∷ tbms) =
    destroy_image (image_of env.create_presentable_image (env.unset_image i) tbm)
    ∷ destroyed_images env (i + 1) tbms

destroyed_images-eq :
    (env : Environment) (i : ℕ) (tbms : List ℕ)
    → map destroyed (buffers_from env.create_presentable_image env.unset_image i tbms)
      ≡ destroyed_images env i tbms
destroyed_images-eq env i [] = refl
destroyed_images-eq env i (tbm ∷ tbms) =
    let image = image_of env.create_presentable_image (env.unset_image i) tbm in
    ap (λ events. destroy_image image ∷ events) (destroyed_images-eq env (i + 1) tbms)

-- What is taken for a swapchain and its images, and how it is given back.
abbrev pub GivesBack : Environment → List Event → Option (List Event) → Type 0
GivesBack env made given =
    let tbms = env.get_buffers.1 in
    (made ≡ alloc_chain ∷ alloc_buffers ∷ map create_image tbms)
    × (given ≡ some (destroyed_images env 0 tbms ++ deinit ∷ free_buffers ∷ free_chain ∷ []))

destroy-chain_of :
    (env : Environment) (surface : Surface)
    → vk_destroy_swapchain_khr true (chain_of env surface)
      ≡ some (destroyed_images env 0 env.get_buffers.1 ++ deinit ∷ free_buffers ∷ free_chain ∷ [])
unfolding vk_destroy_swapchain_khr
destroy-chain_of env surface =
    let tbms = env.get_buffers.1 in
    let buffers = buffers_from env.create_presentable_image env.unset_image 0 tbms in
    let loop = destroy_loop-map [] buffers in
    let count = length-buffers_from env.create_presentable_image env.unset_image 0 tbms in
    let images = destroyed_images-eq env 0 tbms in rw (rw (count, images) at loop) refl

-- If `vk_CreateSwapchainKHR` gives a swapchain, and the driver has `vkDestroyImage`, then
-- `vk_DestroySwapchainKHR` on it never reads outside the buffers: it destroys, in order, the image
-- that the driver made for each buffer of the backend, or, where the driver failed to, whatever the
-- array held there before, calls `deinit` once, and frees the array of buffers and the swapchain,
-- which is all that the creation allocated.
pub destroy-create :
    (env : Environment) (info : CreateInfo) (res : VkResult) (chain : Swapchain)
    (events : List Event)
    → vk_create_swapchain_khr env info ≡ some (res, handle chain, events)
    → GivesBack env events (vk_destroy_swapchain_khr true chain)
destroy-create env info res chain events run =
    of_outcome (vk_create_swapchain_khr env info) (vk_create_swapchain_khr-Outcome env info) run
  where
    of_outcome :
        (r : Option Created)
        → Outcome env info r
        → r ≡ some (res, handle chain, events)
        → GivesBack env events (vk_destroy_swapchain_khr true chain)
    of_outcome _ (bad_platform h) e = absurd (cc e)
    of_outcome _ (no_chain h m) e = absurd (cc e)
    of_outcome _ (bad_format h m f) e = absurd (cc e)
    of_outcome _ (bad_backend format error f reason) e = absurd (cc e)
    of_outcome _ (no_function format f i g m can) e = absurd (cc e)
    of_outcome _ (created format f i g m can) e =
        let same : chain ≡ chain_of env info.surface = cc e in
        (cc e, ap (vk_destroy_swapchain_khr true) same ∙ destroy-chain_of env info.surface)
