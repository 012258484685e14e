-- ===== src/Surface/FormatQueries.antt =====
-- The formats that src/wsi/surface.c lists for a surface.
use vulkan_wsi_tizen.Common.{
  ℕ, zero, suc, ◌≡◌, refl, ◌∙◌, inl, inr, Bool, true, false, ◌&&◌, Option, none, some, List, [],
  ◌∷◌, arith, length, get_elem?, if◌then◌else◌, Bool-cases,
}
use vulkan_wsi_tizen.Enumerate.Copy.{Enumerates, memcpy-Enumerates, take-length}
use vulkan_wsi_tizen.Display.{PhysicalDevice}
use vulkan_wsi_tizen.Formats.{
  TbmFormat, SurfaceFormat, SupportedFormat, supported_formats, get_tbm_format, opaque,
  pre_multiplied,
}
use vulkan_wsi_tizen.Surface.{
  Surface, wayland, tbm_queue, display, other_platform, is_available, select_formats, give_formats,
  tpl_get_surface_formats, tdm_formats, tdm_get_surface_formats,
  vk_get_physical_device_surface_formats_khr,
}

give_formats-Enumerates : (xs : List SurfaceFormat) → Enumerates xs (give_formats xs)
unfolding give_formats
give_formats-Enumerates xs =
    rw (take-length (length xs) xs (omega arith)) at
      (memcpy-Enumerates (length xs) xs (give_formats xs) (omega arith) (λ n. refl) (λ n dst. refl))

-- The formats of TBM that count for a surface: those of the system, or those of the layer of its
-- plane. The inner `none` stands for a device or a surface that is lost.
unfoldable pub formats_of :
    (tbm_formats : Option (List TbmFormat)) (layer_formats : Option ℕ → Option (List TbmFormat))
    → PhysicalDevice
    → Surface
    → Option (Option (List TbmFormat))
formats_of tbm_formats layer_formats pdev (tbm_queue b q) = some tbm_formats
formats_of tbm_formats layer_formats pdev (wayland d s) = some tbm_formats
formats_of tbm_formats layer_formats pdev (display sfc) = tdm_formats layer_formats pdev sfc
formats_of tbm_formats layer_formats pdev other_platform = some none

-- Where the formats of TBM are known, the surface enumerates the rows of the table whose TBM format is
-- among them, in the order of the table.
pub surface_formats-Enumerates :
    (tbm_formats : Option (List TbmFormat)) (layer_formats : Option ℕ → Option (List TbmFormat))
    (pdev : PhysicalDevice) (surface : Surface) (available : List TbmFormat)
    → formats_of tbm_formats layer_formats pdev surface ≡ some (some available)
    → Enumerates
        (select_formats supported_formats available)
        (vk_get_physical_device_surface_formats_khr tbm_formats layer_formats pdev surface)
unfolding vk_get_physical_device_surface_formats_khr tpl_get_surface_formats tdm_get_surface_formats
    formats_of
surface_formats-Enumerates tbm_formats layer_formats pdev surface available known =
    let e = give_formats-Enumerates (select_formats supported_formats available) in
    record {
      counts = λ n. reads surface known n none ∙ e.counts n;
      fills = λ n dst room. reads surface known n (some dst) ∙ e.fills n dst room;
    }
  where
    reads :
        (s : Surface)
        → formats_of tbm_formats layer_formats pdev s ≡ some (some available)
        → (n : ℕ) (formats : Option (List SurfaceFormat))
        → vk_get_physical_device_surface_formats_khr tbm_formats layer_formats pdev s n formats
          ≡ give_formats (select_formats supported_formats available) n formats
    reads (tbm_queue b q) h n formats =
        let same : tbm_formats ≡ some available = cc h in rw same refl
    reads (wayland d s) h n formats = let same : tbm_formats ≡ some available = cc h in rw same refl
    reads (display sfc) h n formats = rw h refl
    reads other_platform h n formats = cc

abbrev is_some : Option TbmFormat → Bool
is_some none = false
is_some (some f) = true

-- Whether a swapchain takes the format with both kinds of alpha that a surface supports.
abbrev pub is_usable : SurfaceFormat → Bool
is_usable f =
    is_some (get_tbm_format f.format opaque) && is_some (get_tbm_format f.format pre_multiplied)

abbrev are_usable : List SupportedFormat → Bool
are_usable [] = true
are_usable (row ∷ rows) = is_usable row.surface_format && are_usable rows

-- A format of the table that is listed because of a TBM format.
pub record IsBacked (rows : List SupportedFormat) (available : List TbmFormat) (f : SurfaceFormat)
    : Type 0 where
  pub index : ℕ
  pub row : SupportedFormat
  pub at : get_elem? rows index ≡ some row
  pub format : row.surface_format ≡ f
  pub there : is_available row.tbm_format available ≡ true
  pub usable : is_usable f ≡ true

later :
    {row : SupportedFormat} {rows : List SupportedFormat} {available : List TbmFormat}
    {f : SurfaceFormat}
    → IsBacked rows available f
    → IsBacked (row ∷ rows) available f
later b = record {
  index = suc b.index;
  row = b.row;
  at = b.at;
  format = b.format;
  there = b.there;
  usable = b.usable;
}

select_formats-cons :
    (row : SupportedFormat) (rows : List SupportedFormat) (available : List TbmFormat)
    → select_formats (row ∷ rows) available ≡ (
        if is_available row.tbm_format available
        then row.surface_format ∷ select_formats rows available
        else select_formats rows available)
unfolding select_formats
select_formats-cons row rows available = refl

select_formats-IsBacked :
    (rows : List SupportedFormat) (available : List TbmFormat) (i : ℕ) (f : SurfaceFormat)
    → are_usable rows ≡ true
    → get_elem? (select_formats rows available) i ≡ some f
    → IsBacked rows available f
unfolding select_formats
select_formats-IsBacked [] available i f usable at = cc
select_formats-IsBacked (row ∷ rows) available i f usable at =
    elim (Bool-cases (is_available row.tbm_format available)) [
      | inr missing ↦ later (
          select_formats-IsBacked rows available i f (ground arith)
            (ground (arith, select_formats-cons row rows available)))
      | inl there ↦
          first (λ j h. select_formats-IsBacked rows available j f (ground arith) h) i
            (ground (arith, select_formats-cons row rows available)) there
    ]
  where
    first :
        ((j : ℕ) → get_elem? (select_formats rows available) j ≡ some f → IsBacked rows available f)
        → (j : ℕ) → get_elem? (row.surface_format ∷ select_formats rows available) j ≡ some f
        → is_available row.tbm_format available ≡ true
        → IsBacked (row ∷ rows) available f
    first rest zero h there =
        let same : row.surface_format ≡ f = cc h in
        record {
          index = 0;
          row = row;
          at = refl;
          format = same;
          there = there;
          usable = ground arith;
        }
    first rest (suc j) h there = later (rest j h)

supported_formats-usable : are_usable supported_formats ≡ true
unfolding supported_formats get_tbm_format
supported_formats-usable = refl

-- Every format that is listed stands in the table with a TBM format that is available, and
-- `get_tbm_format` knows it with opaque and with premultiplied alpha.
pub supported_formats-IsBacked :
    (available : List TbmFormat) (i : ℕ) (f : SurfaceFormat)
    → get_elem? (select_formats supported_formats available) i ≡ some f
    → IsBacked supported_formats available f
supported_formats-IsBacked available i f at =
    select_formats-IsBacked supported_formats available i f supported_formats-usable at
