-- ===== src/TplBackend/Tests.antt =====
-- The backend of src/wsi/swapchain_tpl.c at concrete inputs.
use vulkan_wsi_tizen.Common.{
  ◌+◌, ◌==◌, if◌then◌else◌, ◌≡◌, refl, true, false, some, none, [], ◌∷◌, arith,
}
use vulkan_wsi_tizen.Enumerate.Results.{success}
use vulkan_wsi_tizen.Formats.{tbm_argb8888}
use vulkan_wsi_tizen.Surface.{
  wayland, fifo, mailbox, immediate, TplModes, tpl_get_surface_present_modes, store_mode,
  support_mode_cnt, count_mode,
}
use vulkan_wsi_tizen.Swapchain.{create_backend}
use vulkan_wsi_tizen.TplBackend.{
  TplAnswers, TplInfo, tpl_none, swapchain_tpl_init, TplPresentMode, tpl_present_mode,
}
use vulkan_wsi_tizen.TplBackend.Ends.{Others, tpl_environment, Ends}
use vulkan_wsi_tizen.TplBackend.Creation.{create_backend-Settled}
use vulkan_wsi_tizen.TplBackend.Modes.{has_bit, listed-has_bit}
use vulkan_wsi_tizen.Enumerate.{write}

-- The driver makes no image for the second buffer.
abbrev others : Others
others = record {
  create_presentable_image = some (λ tbm. if tbm == 7 then some (tbm + 100) else none);
  unset_image = λ i. 900 + i;
  has_chain_memory = true;
  has_buffer_memory = λ n. true;
}

abbrev tpl_answers : TplAnswers
tpl_answers = record {
  has_memory = true;
  display_create = none;
  display_get = some 4;
  surface_create = some 6;
  create_swapchain = λ mode. tpl_none;
  buffers_result = tpl_none;
  buffers = 7 ∷ 8 ∷ [];
}

abbrev tpl_info : TplInfo
tpl_info = record { width = 640; height = 480; min_image_count = 2; present_mode = some fifo }

create_backend-Settled_example :
    Ends tpl_answers (swapchain_tpl_init tpl_answers (wayland 1 2) tpl_info) others (
      create_backend
        (tpl_environment tpl_answers (wayland 1 2) tpl_info others)
        (wayland 1 2)
        tbm_argb8888)
create_backend-Settled_example =
    create_backend-Settled tpl_answers (wayland 1 2) tpl_info others tbm_argb8888

abbrev two_modes : TplModes
two_modes = record {
  has_mailbox = true;
  has_fifo = true;
  has_immediate = false;
  has_fifo_relaxed = false;
}

two_listed :
    tpl_get_surface_present_modes (some two_modes) 3 (some (immediate ∷ immediate ∷ immediate ∷ []))
    ≡ some (success, 2, some (fifo ∷ mailbox ∷ immediate ∷ []))
unfolding tpl_get_surface_present_modes store_mode write support_mode_cnt count_mode
two_listed = refl

listed-has_bit_example :
    (m : TplPresentMode) × (tpl_present_mode (some mailbox) ≡ some m) × (has_bit two_modes m ≡ true)
listed-has_bit_example =
    listed-has_bit two_modes 3 1 (immediate ∷ immediate ∷ immediate ∷ []) success 2
      (fifo ∷ mailbox ∷ immediate ∷ []) mailbox (omega arith) two_listed (omega arith) refl
