-- ===== src/TdmBackend/SetUp.antt =====
-- The set-up and the end of a swapchain in src/wsi/swapchain_tdm.c. What TBM, TDM and the allocator
-- answer is a parameter. A result `none` is a read outside an array.
use vulkan_wsi_tizen.Common.{
  ℕ, zero, suc, ◌+◌, Bool, true, false, Option, none, some, List, [], ◌∷◌, ◌++◌, get_elem?,
  if◌then◌else◌, ◌>>=◌,
}
use vulkan_wsi_tizen.Enumerate.Results.{
  VkResult, success, error_out_of_host_memory, error_surface_lost_khr,
}
use vulkan_wsi_tizen.Formats.{TbmFormat}

-- `tdm_output_dpms`: the two values that the code sets, and the rest.
pub data Dpms : Type 0 where
  dpms_on dpms_off other_dpms : Dpms

-- `tbm_surface_info_s`, as far as it is read.
pub record SurfaceInfo : Type 0 where
  pub width : ℕ
  pub height : ℕ
  pub format : ℕ
  pub stride : ℕ

-- `tdm_info_layer`: the size of the buffer, the part of it that is shown, and where it is shown.
pub record LayerInfo : Type 0 where
  pub src_h : ℕ
  pub src_v : ℕ
  pub src_w : ℕ
  pub src_height : ℕ
  pub format : ℕ
  pub dst_w : ℕ
  pub dst_h : ℕ

-- The calls that take or give something back, or set something of the output or the layer.
pub data SetUpCall : Type 0 where
  alloc_backend free_backend queue_destroy init_locks destroy_locks : SetUpCall
  queue_create : (count width height : ℕ) → TbmFormat → SetUpCall
  alloc_buffers free_buffers : SetUpCall
  dequeue release : ℕ → SetUpCall
  set_dpms : Dpms → SetUpCall
  set_mode : ℕ → SetUpCall
  set_layer_info : LayerInfo → SetUpCall

-- The fields of `struct vk_swapchain_tdm` that the set-up writes.
pub record TdmData : Type 0 where
  pub tdm_layer : ℕ
  pub tdm_mode : ℕ
  pub tdm_dpms : Dpms
  pub has_queue : Bool
  pub buffers : Option (List ℕ)

pub record TdmInfo : Type 0 where
  pub width : ℕ
  pub height : ℕ
  pub min_image_count : ℕ
  pub plane_index : ℕ
  pub tdm_mode : ℕ

-- What TBM, TDM and the allocator answer; `dequeue` and `release` for each round of the loops.
pub record SetUpAnswers : Type 0 where
  pub has_memory : Bool
  pub queue_create : Bool
  pub queue_size : ℕ
  pub has_buffer_memory : Bool
  pub dequeue : ℕ → Option ℕ
  pub release : ℕ → Bool
  pub get_dpms : Option Dpms
  pub set_dpms : Bool
  pub set_mode : Bool
  pub surface_info : ℕ → SurfaceInfo
  pub set_layer_info : Bool

-- The data after `memset` and the fields of the display, before the queue is made.
abbrev pub blank_data : (layer : ℕ) → TdmData
blank_data layer = record {
  tdm_layer = layer;
  tdm_mode = 0;
  tdm_dpms = other_dpms;
  has_queue = false;
  buffers = none;
}

-- The result, if `chain->deinit` is set, `chain->backend_data`, and the calls. `layers` has the
-- layer of TDM of each plane.
unfoldable pub swapchain_tdm_init :
    SetUpAnswers
    → (layers : List ℕ) → TdmInfo
    → TbmFormat
    → Option (VkResult × Bool × Option TdmData × List SetUpCall)
swapchain_tdm_init a layers info format =
    if a.has_memory
    then (get_elem? layers info.plane_index >>= λ layer.
        if a.queue_create
        then some (
          success,
          true,
          some (record (blank_data layer) {
            tdm_mode = info.tdm_mode;
            tdm_dpms = dpms_off;
            has_queue = true;
          }),
          alloc_backend
              ∷ queue_create info.min_image_count info.width info.height format
              ∷ init_locks
              ∷ [],
        )
        else some (error_surface_lost_khr, false, some (blank_data layer), alloc_backend ∷ []))
    else some (error_out_of_host_memory, false, none, [])

-- The loop that dequeues: the buffers that it stores, and if it comes to its end.
unfoldable pub dequeue_loop : (ℕ → Option ℕ) → (n i : ℕ) → List ℕ × Bool
dequeue_loop deq zero i = ([], true)
dequeue_loop deq (suc n) i =
    let (buffers, done) = dequeue_loop deq n (i + 1) in
    elim (deq i) [ none ↦ ([], false) | some b ↦ (b ∷ buffers, done) ]

-- The loop that releases: the buffers that it gives back, and if it comes to its end.
unfoldable pub release_loop : (ℕ → Bool) → (i : ℕ) → List ℕ → List ℕ × Bool
release_loop rel i [] = ([], true)
release_loop rel i (b ∷ bs) =
    let (released, done) = release_loop rel (i + 1) bs in
    if rel i then (b ∷ released, done) else ([], false)

unfoldable pub calls_of : (ℕ → SetUpCall) → List ℕ → List SetUpCall
calls_of f [] = []
calls_of f (b ∷ bs) = f b ∷ calls_of f bs

-- The statements on `tdm_info`.
unfoldable pub layer_info : SurfaceInfo → LayerInfo
layer_info s = record {
  src_h = s.stride;
  src_v = s.height;
  src_w = s.width;
  src_height = s.height;
  format = s.format;
  dst_w = s.width;
  dst_h = s.height;
}

abbrev pub Buffers : Type 0
Buffers = VkResult × Option (List ℕ) × TdmData × List SetUpCall

-- From the mode on; the buffers are given out already.
unfoldable pub show_output : SetUpAnswers → List ℕ → TdmData → List SetUpCall → Option Buffers
show_output a buffers b calls =
    if a.set_mode
    then (get_elem? buffers 0 >>= λ first.
        let calls =
          calls
          ++ (set_mode b.tdm_mode ∷ set_layer_info (layer_info (a.surface_info first)) ∷ []) in
        if a.set_layer_info
        then some (success, some buffers, b, calls)
        else some (error_surface_lost_khr, some buffers, b, calls))
    else some (error_surface_lost_khr, some buffers, b, calls ++ set_mode b.tdm_mode ∷ [])

-- `tdm_output_get_dpms` on `swapchain_tdm->tdm_dpms`, whose error is not looked at.
unfoldable pub read_dpms : SetUpAnswers → Dpms → Dpms
read_dpms a old = elim (a.get_dpms) [ none ↦ old | some dpms ↦ dpms ]

-- From the state of the display on.
unfoldable pub switch_on : SetUpAnswers → List ℕ → TdmData → List SetUpCall → Option Buffers
switch_on a buffers b calls =
    let b : TdmData = record b { tdm_dpms = read_dpms a b.tdm_dpms } in
    let calls = calls ++ set_dpms dpms_on ∷ [] in
    if a.set_dpms
    then show_output a buffers b calls
    else some (error_surface_lost_khr, some buffers, b, calls)

unfoldable pub swapchain_tdm_get_buffers : SetUpAnswers → TdmData → Option Buffers
swapchain_tdm_get_buffers a b =
    if a.has_buffer_memory
    then (let (buffers, all) = dequeue_loop a.dequeue a.queue_size 0 in
        let b = record b { buffers = some buffers } in
        let calls = alloc_buffers ∷ calls_of dequeue buffers in
        if all
        then (let (released, done) = release_loop a.release 0 buffers in
            let calls = calls ++ calls_of release released in
            if done
            then switch_on a buffers b calls
            else some (error_surface_lost_khr, none, b, calls))
        else some (error_surface_lost_khr, none, b, calls))
    else some (error_out_of_host_memory, none, b, [])

unfoldable pub swapchain_tdm_deinit : Option TdmData → List SetUpCall
swapchain_tdm_deinit none = []
swapchain_tdm_deinit (some b) =
    set_dpms b.tdm_dpms
    ∷ destroy_locks
    ∷ ((if b.has_queue then queue_destroy ∷ [] else [])
        ++ (elim (b.buffers) [ none ↦ [] | some buffers ↦ free_buffers ∷ [] ] ++ free_backend ∷ []))
