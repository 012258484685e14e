-- ===== src/Formats.antt =====
-- The pixel formats of src/wsi: those that a surface may have, with the TBM formats they stand for
-- (`supported_formats` of src/wsi/surface.c), and the TBM format that a swapchain asks for
-- (`get_tbm_format` of src/wsi/swapchain.c).
use vulkan_wsi_tizen.Common.{ℕ, ◌+◌, Option, none, some, List, [], ◌∷◌}

-- The formats of TBM that the layer names, and all others.
pub data TbmFormat : Type 0 where
  tbm_rgba8888 tbm_xrgb8888 tbm_argb8888 tbm_xbgr8888 tbm_abgr8888 tbm_rgb888 tbm_bgr888 : TbmFormat
  tbm_rgb565 tbm_bgr565 tbm_rgbx4444 tbm_rgba4444 tbm_bgrx4444 tbm_bgra4444 tbm_argb1555 : TbmFormat
  tbm_xrgb1555 tbm_rgbx5551 tbm_rgba5551 tbm_bgrx5551 tbm_bgra5551 tbm_xrgb2101010 : TbmFormat
  tbm_xbgr2101010 tbm_abgr2101010 tbm_argb2101010 : TbmFormat
  other_tbm_format : ℕ → TbmFormat

-- A number for each format of TBM, to tell them apart by.
unfoldable pub tbm_code : TbmFormat → ℕ
tbm_code tbm_rgba8888 = 0
tbm_code tbm_xrgb8888 = 1
tbm_code tbm_argb8888 = 2
tbm_code tbm_xbgr8888 = 3
tbm_code tbm_abgr8888 = 4
tbm_code tbm_rgb888 = 5
tbm_code tbm_bgr888 = 6
tbm_code tbm_rgb565 = 7
tbm_code tbm_bgr565 = 8
tbm_code tbm_rgbx4444 = 9
tbm_code tbm_rgba4444 = 10
tbm_code tbm_bgrx4444 = 11
tbm_code tbm_bgra4444 = 12
tbm_code tbm_argb1555 = 13
tbm_code tbm_xrgb1555 = 14
tbm_code tbm_rgbx5551 = 15
tbm_code tbm_rgba5551 = 16
tbm_code tbm_bgrx5551 = 17
tbm_code tbm_bgra5551 = 18
tbm_code tbm_xrgb2101010 = 19
tbm_code tbm_xbgr2101010 = 20
tbm_code tbm_abgr2101010 = 21
tbm_code tbm_argb2101010 = 22
tbm_code (other_tbm_format n) = 23 + n

-- The `VkFormat`s that the layer names, and all others.
pub data VkFormat : Type 0 where
  vk_format_r4g4b4a4_unorm_pack16 vk_format_b4g4r4a4_unorm_pack16 : VkFormat
  vk_format_r5g6b5_unorm_pack16 vk_format_b5g6r5_unorm_pack16 : VkFormat
  vk_format_r5g5b5a1_unorm_pack16 vk_format_b5g5r5a1_unorm_pack16 : VkFormat
  vk_format_a1r5g5b5_unorm_pack16 vk_format_r8g8b8_unorm vk_format_b8g8r8_unorm : VkFormat
  vk_format_b8g8r8a8_unorm vk_format_a8b8g8r8_unorm_pack32 : VkFormat
  vk_format_a2r10g10b10_unorm_pack32 vk_format_a2b10g10r10_unorm_pack32 : VkFormat
  other_vk_format : ℕ → VkFormat

pub data ColorSpace : Type 0 where
  srgb_nonlinear_khr : ColorSpace

-- `VkSurfaceFormatKHR`
pub record SurfaceFormat : Type 0 where
  pub format : VkFormat
  pub color_space : ColorSpace

pub record SupportedFormat : Type 0 where
  pub tbm_format : TbmFormat
  pub surface_format : SurfaceFormat

abbrev format_entry : TbmFormat → VkFormat → SupportedFormat
format_entry tbm vk = record {
  tbm_format = tbm;
  surface_format = record { format = vk; color_space = srgb_nonlinear_khr };
}

unfoldable pub supported_formats : List SupportedFormat
supported_formats =
    format_entry tbm_rgba8888 vk_format_b8g8r8a8_unorm
    ∷ format_entry tbm_xrgb8888 vk_format_b8g8r8a8_unorm
    ∷ format_entry tbm_argb8888 vk_format_b8g8r8a8_unorm
    ∷ format_entry tbm_xbgr8888 vk_format_a8b8g8r8_unorm_pack32
    ∷ format_entry tbm_abgr8888 vk_format_a8b8g8r8_unorm_pack32
    ∷ format_entry tbm_rgb888 vk_format_b8g8r8_unorm
    ∷ format_entry tbm_bgr888 vk_format_r8g8b8_unorm
    ∷ format_entry tbm_rgb565 vk_format_r5g6b5_unorm_pack16
    ∷ format_entry tbm_bgr565 vk_format_b5g6r5_unorm_pack16
    ∷ format_entry tbm_rgbx4444 vk_format_r4g4b4a4_unorm_pack16
    ∷ format_entry tbm_rgba4444 vk_format_r4g4b4a4_unorm_pack16
    ∷ format_entry tbm_bgrx4444 vk_format_b4g4r4a4_unorm_pack16
    ∷ format_entry tbm_bgra4444 vk_format_b4g4r4a4_unorm_pack16
    ∷ format_entry tbm_argb1555 vk_format_a1r5g5b5_unorm_pack16
    ∷ format_entry tbm_xrgb1555 vk_format_a1r5g5b5_unorm_pack16
    ∷ format_entry tbm_rgbx5551 vk_format_r5g5b5a1_unorm_pack16
    ∷ format_entry tbm_rgba5551 vk_format_r5g5b5a1_unorm_pack16
    ∷ format_entry tbm_bgrx5551 vk_format_b5g5r5a1_unorm_pack16
    ∷ format_entry tbm_bgra5551 vk_format_b5g5r5a1_unorm_pack16
    ∷ format_entry tbm_xrgb2101010 vk_format_a2r10g10b10_unorm_pack32
    ∷ format_entry tbm_xbgr2101010 vk_format_a2b10g10r10_unorm_pack32
    ∷ format_entry tbm_abgr2101010 vk_format_a2b10g10r10_unorm_pack32
    ∷ []

-- `VkCompositeAlphaFlagBitsKHR`
pub data CompositeAlpha : Type 0 where
  opaque pre_multiplied post_multiplied inherit : CompositeAlpha
  other_alpha : ℕ → CompositeAlpha

-- `RETURN_FORMAT`; `none` is the format 0.
unfoldable pub return_format :
    CompositeAlpha → (opaque_one pre post inherited : Option TbmFormat) → Option TbmFormat
return_format opaque opaque_one pre post inherited = opaque_one
return_format pre_multiplied opaque_one pre post inherited = pre
return_format post_multiplied opaque_one pre post inherited = post
return_format inherit opaque_one pre post inherited = inherited
return_format (other_alpha n) opaque_one pre post inherited = none

unfoldable pub get_tbm_format : VkFormat → CompositeAlpha → Option TbmFormat
unfolding return_format
get_tbm_format vk_format_r4g4b4a4_unorm_pack16 comp =
    return_format comp (some tbm_rgbx4444) (some tbm_rgba4444) none (some tbm_rgba4444)
get_tbm_format vk_format_b4g4r4a4_unorm_pack16 comp =
    return_format comp (some tbm_bgrx4444) (some tbm_bgra4444) none (some tbm_bgra4444)
get_tbm_format vk_format_r5g6b5_unorm_pack16 comp =
    return_format comp (some tbm_rgb565) (some tbm_rgb565) (some tbm_rgb565) (some tbm_rgb565)
get_tbm_format vk_format_b5g6r5_unorm_pack16 comp =
    return_format comp (some tbm_bgr565) (some tbm_bgr565) (some tbm_bgr565) (some tbm_bgr565)
get_tbm_format vk_format_r5g5b5a1_unorm_pack16 comp =
    return_format comp (some tbm_rgbx5551) (some tbm_rgba5551) none (some tbm_rgba5551)
get_tbm_format vk_format_b5g5r5a1_unorm_pack16 comp =
    return_format comp (some tbm_bgrx5551) (some tbm_bgra5551) none (some tbm_bgra5551)
get_tbm_format vk_format_a1r5g5b5_unorm_pack16 comp =
    return_format comp (some tbm_xrgb1555) (some tbm_argb1555) none (some tbm_argb1555)
get_tbm_format vk_format_r8g8b8_unorm comp =
    return_format comp (some tbm_bgr888) (some tbm_bgr888) (some tbm_bgr888) (some tbm_bgr888)
get_tbm_format vk_format_b8g8r8_unorm comp =
    return_format comp (some tbm_rgb888) (some tbm_rgb888) (some tbm_rgb888) (some tbm_rgb888)
get_tbm_format vk_format_b8g8r8a8_unorm comp =
    return_format comp (some tbm_xrgb8888) (some tbm_argb8888) none (some tbm_argb8888)
get_tbm_format vk_format_a8b8g8r8_unorm_pack32 comp =
    return_format comp (some tbm_xbgr8888) (some tbm_abgr8888) none (some tbm_abgr8888)
get_tbm_format vk_format_a2r10g10b10_unorm_pack32 comp =
    return_format comp (some tbm_xrgb2101010) (some tbm_argb2101010) none (some tbm_argb2101010)
get_tbm_format vk_format_a2b10g10r10_unorm_pack32 comp =
    return_format comp (some tbm_xbgr2101010) (some tbm_abgr2101010) none (some tbm_abgr2101010)
get_tbm_format (other_vk_format n) comp = none
