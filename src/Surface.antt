-- ===== src/Surface.antt =====
-- src/wsi/surface.c: what a surface supports. The answers of TPL, TDM and TBM are parameters;
-- `none` is any error of theirs.
pub mod FormatQueries
pub mod PresentModes
pub mod CapabilityQuery
pub mod Capabilities
mod Support
mod Tests
use vulkan_wsi_tizen.Common.{
  ℕ, zero, suc, ◌+◌, Bool, true, false, ◌&&◌, ◌||◌, Option, none, some, List, [], ◌∷◌, length,
  get_elem?, min, ltb, leb, ◌==◌, if◌then◌else◌, ◌>>=◌,
}
use vulkan_wsi_tizen.Enumerate.{Answer, Query, write, memcpy}
use vulkan_wsi_tizen.Enumerate.Results.{
  VkResult, success, incomplete, error_device_lost, error_extension_not_present,
  error_out_of_host_memory,
}
use vulkan_wsi_tizen.Formats.{
  TbmFormat, tbm_code, SurfaceFormat, SupportedFormat, supported_formats,
}
use vulkan_wsi_tizen.Display.{Extent, Display, DisplayMode, PhysicalDevice}
use vulkan_wsi_tizen.Display.Setup.{Tdm, AvailableSize}

-- `VkIcdSurfaceDisplay`; `none` for the mode is `NULL`.
pub record SurfaceDisplay : Type 0 where
  pub display_mode : Option DisplayMode
  pub plane_index : ℕ
  pub image_extent : Extent

-- A surface by the platform of its base; pointers of the window system are numbers.
pub data Surface : Type 0 where
  wayland : (wl_display wl_surface : ℕ) → Surface
  tbm_queue : (bufmgr queue : ℕ) → Surface
  display : SurfaceDisplay → Surface
  other_platform : Surface

-- The inner loop over the formats that TBM gave.
unfoldable pub is_available : TbmFormat → List TbmFormat → Bool
is_available f [] = false
is_available f (x ∷ tbm_formats) = tbm_code x == tbm_code f || is_available f tbm_formats

-- The outer loop over `supported_formats`.
unfoldable pub select_formats : List SupportedFormat → List TbmFormat → List SurfaceFormat
select_formats [] tbm_formats = []
select_formats (row ∷ rows) tbm_formats =
    let rest = select_formats rows tbm_formats in
    if is_available row.tbm_format tbm_formats then row.surface_format ∷ rest else rest

-- The end of both functions.
unfoldable pub give_formats : List SurfaceFormat → Query SurfaceFormat
give_formats surface_formats format_count none = some (success, length surface_formats, none)
give_formats surface_formats format_count (some formats) =
    let n = min format_count (length surface_formats) in
    memcpy n surface_formats formats >>= λ formats.
    some ((if ltb n (length surface_formats) then incomplete else success), n, some formats)

unfoldable pub tpl_get_surface_formats : Option (List TbmFormat) → Query SurfaceFormat
tpl_get_surface_formats none format_count formats = some (error_device_lost, format_count, formats)
tpl_get_surface_formats (some tbm_formats) format_count formats =
    give_formats (select_formats supported_formats tbm_formats) format_count formats

-- The formats of the layer of the plane of a surface. The inner `none` is a check that fails, and a
-- read outside an array is a fault.
unfoldable pub tdm_formats :
    (layer_formats : Option ℕ → Option (List TbmFormat))
    → PhysicalDevice
    → SurfaceDisplay
    → Option (Option (List TbmFormat))
tdm_formats layer_formats pdev sfc = elim (sfc.display_mode) [
  | none ↦ some none
  | some mode ↦ elim (mode.display) [
    | none ↦ some none
    | some index ↦ get_elem? pdev.displays index >>= λ dpy.
        if dpy.has_pdev
        then (if ltb sfc.plane_index pdev.plane_count
            then (get_elem? pdev.planes sfc.plane_index >>= λ plane.
                some (layer_formats plane.tdm_layer))
            else some none)
        else some none
  ]
]

unfoldable pub tdm_get_surface_formats :
    (layer_formats : Option ℕ → Option (List TbmFormat))
    → PhysicalDevice
    → SurfaceDisplay
    → Query SurfaceFormat
tdm_get_surface_formats layer_formats pdev sfc format_count formats =
    tdm_formats layer_formats pdev sfc >>= λ available. elim available [
      | none ↦ some (error_device_lost, format_count, formats)
      | some tbm_formats ↦
          give_formats (select_formats supported_formats tbm_formats) format_count formats
    ]

unfoldable pub vk_get_physical_device_surface_formats_khr :
    (tbm_formats : Option (List TbmFormat)) (layer_formats : Option ℕ → Option (List TbmFormat))
    → PhysicalDevice
    → Surface
    → Query SurfaceFormat
vk_get_physical_device_surface_formats_khr tbm_formats layer_formats pdev (tbm_queue b q)
      format_count formats =
    tpl_get_surface_formats tbm_formats format_count formats
vk_get_physical_device_surface_formats_khr tbm_formats layer_formats pdev (wayland d s) format_count
      formats =
    tpl_get_surface_formats tbm_formats format_count formats
vk_get_physical_device_surface_formats_khr tbm_formats layer_formats pdev (display sfc) format_count
      formats =
    tdm_get_surface_formats layer_formats pdev sfc format_count formats
vk_get_physical_device_surface_formats_khr tbm_formats layer_formats pdev other_platform
      format_count formats =
    some (error_extension_not_present, format_count, formats)

-- `VkPresentModeKHR`
pub data PresentMode : Type 0 where
  immediate mailbox fifo fifo_relaxed : PresentMode

-- The four bits of TPL that are tested.
pub record TplModes : Type 0 where
  pub has_mailbox : Bool
  pub has_fifo : Bool
  pub has_immediate : Bool
  pub has_fifo_relaxed : Bool

unfoldable pub count_mode : Bool → ℕ → ℕ
count_mode has n = if has then n + 1 else n

-- `if (i < *mode_count && has) modes[i++] = mode;`
unfoldable pub store_mode :
    (mode_count : ℕ) → Bool → PresentMode → ℕ × List PresentMode → Option (ℕ × List PresentMode)
store_mode mode_count has mode (i, modes) =
    if ltb i mode_count && has
    then (write modes i mode >>= λ modes'. some (i + 1, modes'))
    else some (i, modes)

unfoldable pub support_mode_cnt : TplModes → ℕ
support_mode_cnt t =
    count_mode t.has_fifo_relaxed
      (count_mode t.has_immediate (count_mode t.has_fifo (count_mode t.has_mailbox 0)))

unfoldable pub tpl_get_surface_present_modes : Option TplModes → Query PresentMode
tpl_get_surface_present_modes none mode_count modes = some (error_device_lost, mode_count, modes)
tpl_get_surface_present_modes (some t) mode_count none = some (success, support_mode_cnt t, none)
tpl_get_surface_present_modes (some t) mode_count (some modes) =
    let n = min mode_count (support_mode_cnt t) in
    store_mode n t.has_fifo fifo (0, modes) >>= λ s1.
    store_mode n t.has_mailbox mailbox s1 >>= λ s2.
    store_mode n t.has_immediate immediate s2 >>= λ s3.
    store_mode n t.has_fifo_relaxed fifo_relaxed s3 >>= λ s4.
    some ((if ltb n (support_mode_cnt t) then incomplete else success), n, some s4.1)

-- The count of the caller is not lowered to the number of modes.
unfoldable pub tdm_get_surface_present_modes : Query PresentMode
tdm_get_surface_present_modes mode_count none = some (success, 4, none)
tdm_get_surface_present_modes mode_count (some modes) =
    store_mode mode_count true fifo (0, modes) >>= λ s1.
    store_mode mode_count true mailbox s1 >>= λ s2.
    store_mode mode_count true immediate s2 >>= λ s3.
    store_mode mode_count true fifo_relaxed s3 >>= λ s4.
    some ((if ltb mode_count 4 then incomplete else success), mode_count, some s4.1)

-- `tpl_modes` gives what TPL says of a surface, `none` where a call of TPL fails.
unfoldable pub vk_get_physical_device_surface_present_modes_khr :
    (tpl_modes : Surface → Option TplModes) → Surface → Query PresentMode
vk_get_physical_device_surface_present_modes_khr tpl_modes (tbm_queue b q) mode_count modes =
    tpl_get_surface_present_modes (tpl_modes (tbm_queue b q)) mode_count modes
vk_get_physical_device_surface_present_modes_khr tpl_modes (wayland d s) mode_count modes =
    tpl_get_surface_present_modes (tpl_modes (wayland d s)) mode_count modes
vk_get_physical_device_surface_present_modes_khr tpl_modes (display sfc) mode_count modes =
    tdm_get_surface_present_modes mode_count modes
vk_get_physical_device_surface_present_modes_khr tpl_modes other_platform mode_count modes =
    some (error_extension_not_present, mode_count, modes)
