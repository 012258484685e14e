-- ===== src/Display/Queries.antt =====
-- The four enumerations of src/wsi/display.c on a device as the initialisation leaves it.
use vulkan_wsi_tizen.Common.{ℕ, ◌<◌, ◌≡◌, some, map, take, get_elem?, arith}
use vulkan_wsi_tizen.Enumerate.Copy.{Enumerates}
use vulkan_wsi_tizen.Display.{
  Display, DisplayMode, DisplayPlane, PhysicalDevice, vk_get_physical_device_display_properties_khr,
  vk_get_physical_device_display_plane_properties_khr, vk_get_display_plane_supported_displays_khr,
  vk_get_display_mode_properties_khr,
}
use vulkan_wsi_tizen.Display.Listing.{
  display_properties-Enumerates, plane_properties-Enumerates, supported_displays-Enumerates,
  mode_properties-Enumerates,
}
use vulkan_wsi_tizen.Display.Ready.{IsReady}

-- What the four queries list.
pub record Listed (pdev : PhysicalDevice) : Type 0 where
  pub displays :
      Enumerates
        (map (λ (d : Display). d.prop) (take pdev.display_count pdev.displays))
        (vk_get_physical_device_display_properties_khr pdev)
  pub planes :
      Enumerates
        (map (λ (p : DisplayPlane). p.prop) (take pdev.plane_count pdev.planes))
        (vk_get_physical_device_display_plane_properties_khr pdev)
  pub supported :
      (j : ℕ) (p : DisplayPlane)
      → j < pdev.plane_count
      → get_elem? pdev.planes j ≡ some p
      → Enumerates
          (map (λ (d : ℕ). d) (take p.supported_display_count p.supported_displays))
          (vk_get_display_plane_supported_displays_khr pdev j)
  pub modes :
      (i : ℕ) (d : Display)
      → i < pdev.display_count
      → get_elem? pdev.displays i ≡ some d
      → Enumerates
          (map (λ (m : DisplayMode). m.prop) (take d.built_in_mode_count d.built_in_modes.cells))
          (vk_get_display_mode_properties_khr d)

-- On a device as the initialisation leaves it, the displays are enumerated, the planes, for the
-- index of each plane the displays that it supports, and for each display its built-in modes.
pub IsReady-Listed : (bound : ℕ) (pdev : PhysicalDevice) → IsReady bound pdev → Listed pdev
IsReady-Listed bound pdev ready = record {
  displays =
      display_properties-Enumerates pdev (omega (arith, ready.displays_size, ready.display_le));
  planes = plane_properties-Enumerates pdev (omega (arith, ready.planes_size, ready.plane_le));
  supported = λ j p below at.
      supported_displays-Enumerates pdev j p at
        (omega (arith, (ready.owned j p below at).one, ready.wide j p at));
  modes = λ i d below at.
      mode_properties-Enumerates d (omega (arith, (ready.ready i d below at).valid.built_in_count));
}
