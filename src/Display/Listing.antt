-- ===== src/Display/Listing.antt =====
-- The enumerations of src/wsi/display.c keep the protocol.
use vulkan_wsi_tizen.Common.{ℕ, ◌≤◌, ◌≡◌, refl, some, map, length, take, get_elem?}
use vulkan_wsi_tizen.Enumerate.Copy.{Enumerates, loop-Enumerates}
use vulkan_wsi_tizen.Display.{
  Display, DisplayMode, DisplayPlane, PhysicalDevice, vk_get_physical_device_display_properties_khr,
  vk_get_physical_device_display_plane_properties_khr, vk_get_display_plane_supported_displays_khr,
  vk_get_display_mode_properties_khr,
}

-- The displays of a device are enumerated: the first `display_count` of the array.
pub display_properties-Enumerates :
    (phydev : PhysicalDevice)
    → phydev.display_count ≤ length phydev.displays
    → Enumerates
        (map (λ (d : Display). d.prop) (take phydev.display_count phydev.displays))
        (vk_get_physical_device_display_properties_khr phydev)
unfolding vk_get_physical_device_display_properties_khr
display_properties-Enumerates phydev fits =
    loop-Enumerates (λ (d : Display). d.prop) phydev.display_count phydev.displays _ fits
      (λ n. refl) (λ n dst. refl)

-- The planes of a device are enumerated: the first `plane_count` of the array.
pub plane_properties-Enumerates :
    (phydev : PhysicalDevice)
    → phydev.plane_count ≤ length phydev.planes
    → Enumerates
        (map (λ (p : DisplayPlane). p.prop) (take phydev.plane_count phydev.planes))
        (vk_get_physical_device_display_plane_properties_khr phydev)
unfolding vk_get_physical_device_display_plane_properties_khr
plane_properties-Enumerates phydev fits =
    loop-Enumerates (λ (p : DisplayPlane). p.prop) phydev.plane_count phydev.planes _ fits
      (λ n. refl) (λ n dst. refl)

-- For an index of a plane, the displays that the plane supports are enumerated.
pub supported_displays-Enumerates :
    (phydev : PhysicalDevice) (plane_index : ℕ) (plane : DisplayPlane)
    → get_elem? phydev.planes plane_index ≡ some plane
    → plane.supported_display_count ≤ length plane.supported_displays
    → Enumerates
        (map (λ (d : ℕ). d) (take plane.supported_display_count plane.supported_displays))
        (vk_get_display_plane_supported_displays_khr phydev plane_index)
unfolding vk_get_display_plane_supported_displays_khr
supported_displays-Enumerates phydev plane_index plane found fits =
    loop-Enumerates (λ (d : ℕ). d) plane.supported_display_count plane.supported_displays _ fits
      (λ n. rw found) (λ n dst. rw found)

-- The built-in modes of a display are enumerated.
pub mode_properties-Enumerates :
    (dpy : Display)
    → dpy.built_in_mode_count ≤ length dpy.built_in_modes.cells
    → Enumerates
        (map (λ (m : DisplayMode). m.prop) (take dpy.built_in_mode_count dpy.built_in_modes.cells))
        (vk_get_display_mode_properties_khr dpy)
unfolding vk_get_display_mode_properties_khr
mode_properties-Enumerates dpy fits =
    loop-Enumerates (λ (m : DisplayMode). m.prop) dpy.built_in_mode_count dpy.built_in_modes.cells _
      fits (λ n. refl) (λ n dst. refl)
