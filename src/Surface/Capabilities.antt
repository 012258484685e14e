-- ===== src/Surface/Capabilities.antt =====
-- What the queries of the capabilities of a surface in src/wsi/surface.c answer, and what becomes of
-- the display of TPL.
use vulkan_wsi_tizen.Common.{ℕ, ◌≡◌, Option, none, some, List, [], get_elem?}
use vulkan_wsi_tizen.Enumerate.Results.{success, error_device_lost, error_extension_not_present}
use vulkan_wsi_tizen.Common.Counting.{count}
use vulkan_wsi_tizen.TplBackend.{TplAnswers, Call, vk_get_tpl_display}
use vulkan_wsi_tizen.TplBackend.Lifecycle.{takes, gives_back, tpl_display}
use vulkan_wsi_tizen.Display.{DisplayMode, Display, PhysicalDevice}
use vulkan_wsi_tizen.Display.Setup.{Tdm, AvailableSize}
use vulkan_wsi_tizen.Surface.{Surface, SurfaceDisplay, display, other_platform}
use vulkan_wsi_tizen.Surface.CapabilityQuery.{SurfaceCapabilities, Answered, store_tpl_capabilities}

-- How often the calls take and give back a display of TPL.
abbrev pub References : (taken given_back : ℕ) → List Call → Type 0
References taken given_back calls =
    (count (takes tpl_display) calls ≡ taken) × (count (gives_back tpl_display) calls ≡ given_back)

-- Why the query of a surface of TDM fails: it has no mode, its mode has no display, or TDM gives no
-- size.
pub data Fails (tdm : Tdm) (pdev : PhysicalDevice) (sfc : SurfaceDisplay) : Type 0 where
  no_mode : sfc.display_mode ≡ none → Fails tdm pdev sfc
  no_display :
      (mode : DisplayMode) → sfc.display_mode ≡ some mode → mode.display ≡ none → Fails tdm pdev sfc
  no_size :
      (mode : DisplayMode) (index : ℕ) (disp : Display)
      → sfc.display_mode ≡ some mode
      → mode.display ≡ some index
      → get_elem? pdev.displays index ≡ some disp
      → tdm.get_available_size disp.tdm_output ≡ none
      → Fails tdm pdev sfc

-- How the query of a surface ends.
pub data Settled (a : TplAnswers) (buffer_count : ℕ → Surface → Option (ℕ × ℕ)) (tdm : Tdm)
    (pdev : PhysicalDevice) (surface : Surface) (caps : SurfaceCapabilities)
    : Answered → Type 0 where
  unsupported :
      surface ≡ other_platform
      → Settled a buffer_count tdm pdev surface caps (error_extension_not_present, caps, [])
  no_tpl_display :
      (calls : List Call)
      → (vk_get_tpl_display a surface).0 ≡ none
      → References 0 0 calls
      → Settled a buffer_count tdm pdev surface caps (error_device_lost, caps, calls)
  uncounted :
      (d : ℕ) (calls : List Call)
      → (vk_get_tpl_display a surface).0 ≡ some d
      → buffer_count d surface ≡ none
      → References 1 0 calls
      → Settled a buffer_count tdm pdev surface caps (error_device_lost, caps, calls)
  tpl_answers :
      (d least most : ℕ) (calls : List Call)
      → (vk_get_tpl_display a surface).0 ≡ some d
      → buffer_count d surface ≡ some (least, most)
      → References 1 1 calls
      → Settled a buffer_count tdm pdev surface caps
          (success, store_tpl_capabilities least most, calls)
  tdm_fails :
      (sfc : SurfaceDisplay)
      → surface ≡ display sfc
      → Fails tdm pdev sfc
      → Settled a buffer_count tdm pdev surface caps (error_device_lost, caps, [])
  tdm_answers :
      (sfc : SurfaceDisplay) (mode : DisplayMode) (index : ℕ) (disp : Display)
      (size : AvailableSize) (c : SurfaceCapabilities)
      → surface ≡ display sfc
      → sfc.display_mode ≡ some mode
      → mode.display ≡ some index
      → get_elem? pdev.displays index ≡ some disp
      → tdm.get_available_size disp.tdm_output ≡ some size
      → (c.current_extent ≡ sfc.image_extent)
        × (c.min_image_extent ≡ size.least)
        × (c.max_image_extent ≡ size.most)
      → Settled a buffer_count tdm pdev surface caps (success, c, [])
