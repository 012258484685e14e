-- ===== src/Surface/Tests.antt =====
-- The queries of src/wsi/surface.c on a Wayland surface where TBM has two formats.
use vulkan_wsi_tizen.Common.{
  ◌≡◌, refl, true, false, none, some, List, [], ◌∷◌, ◌++◌, arith, length, take, drop, get_elem?,
  min, ltb, if◌then◌else◌, Option, ℕ, ◌>>=◌,
}
use vulkan_wsi_tizen.Enumerate.Results.{success, incomplete}
use vulkan_wsi_tizen.Enumerate.Copy.{Enumerates}
use vulkan_wsi_tizen.Display.{PhysicalDevice}
use vulkan_wsi_tizen.Formats.{
  TbmFormat, tbm_xrgb8888, tbm_argb8888, SurfaceFormat, vk_format_b8g8r8a8_unorm,
  srgb_nonlinear_khr, supported_formats, tbm_code,
}
use vulkan_wsi_tizen.TplBackend.{TplAnswers, tpl_none}
use vulkan_wsi_tizen.Surface.{
  SurfaceDisplay, select_formats, is_available, PresentMode, TplModes, immediate,
  tpl_get_surface_present_modes, tdm_get_surface_present_modes, display, Surface,
}
use vulkan_wsi_tizen.Surface.FormatQueries.{formats_of, IsBacked, supported_formats-IsBacked}
use vulkan_wsi_tizen.Surface.PresentModes.{
  tpl_table, selected, tpl_present_modes-Enumerates, all_modes, tdm_present_modes-counts,
}
use vulkan_wsi_tizen.Surface.CapabilityQuery.{SurfaceCapabilities, square}

program : Unit {0}
unfolding supported_formats tbm_code select_formats is_available formats_of
program = tt

abbrev two_formats : List TbmFormat
two_formats = tbm_argb8888 ∷ tbm_xrgb8888 ∷ []

abbrev no_device : PhysicalDevice
no_device = record {
  tdm_display = none;
  display_count = 0;
  displays = [];
  plane_count = 0;
  planes = [];
}

abbrev b8g8r8a8 : SurfaceFormat
b8g8r8a8 = record { format = vk_format_b8g8r8a8_unorm; color_space = srgb_nonlinear_khr }

listed : get_elem? (select_formats supported_formats two_formats) 1 ≡ some b8g8r8a8
unfolding program
listed = refl

supported_formats-IsBacked_example : IsBacked supported_formats two_formats b8g8r8a8
supported_formats-IsBacked_example = supported_formats-IsBacked two_formats 1 b8g8r8a8 listed

abbrev some_modes : TplModes
some_modes = record {
  has_mailbox = true;
  has_fifo = true;
  has_immediate = false;
  has_fifo_relaxed = true;
}

tpl_present_modes-Enumerates_example :
    Enumerates (selected (tpl_table some_modes)) (tpl_get_surface_present_modes (some some_modes))
tpl_present_modes-Enumerates_example = tpl_present_modes-Enumerates some_modes

abbrev six : List PresentMode
six = immediate ∷ immediate ∷ immediate ∷ immediate ∷ immediate ∷ immediate ∷ []

tdm_present_modes-counts_example :
    (tdm_get_surface_present_modes 6 none ≡ some (success, length all_modes, none))
    × (tdm_get_surface_present_modes 6 (some six)
        ≡ some (
          (if ltb 6 4 then incomplete else success),
          6,
          some (take 6 all_modes ++ drop (min 6 4) six),
        ))
tdm_present_modes-counts_example = tdm_present_modes-counts 6 six (omega arith)

abbrev zeroed : SurfaceCapabilities
zeroed = record {
  min_image_count = 0;
  max_image_count = 0;
  current_extent = square 0;
  min_image_extent = square 0;
  max_image_extent = square 0;
  max_image_array_layers = 0;
  supported_transforms = 0;
  current_transform = 0;
  supported_composite_alpha = 0;
  supported_usage_flags = 0;
}

abbrev shown : SurfaceDisplay
shown = record {
  display_mode = some (record {
    display = some 3;
    prop = record {
      display_mode = record { block = 9; index = 0 };
      parameters = record { visible_region = square 700; refresh_rate = 60000 };
    };
    tdm_mode = none;
  });
  plane_index = 0;
  image_extent = square 600;
}

abbrev tpl_answers : TplAnswers
tpl_answers = record {
  has_memory = true;
  display_create = none;
  display_get = some 4;
  surface_create = some 6;
  create_swapchain = λ mode. tpl_none;
  buffers_result = tpl_none;
  buffers = [];
}

abbrev display_of : Surface → Option ℕ
display_of (display sfc) = sfc.display_mode >>= λ mode. mode.display
display_of _ = none
