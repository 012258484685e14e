-- ===== src/Display/Capabilities.antt =====
-- The capabilities of a plane in src/wsi/display.c. The numbers of the flags are those of
-- include/vulkan/vulkan.h; sizes that TDM gives are not negative.
use vulkan_wsi_tizen.Common.{
  ℕ, ◌+◌, ◌-◌, ◌%◌, ◌^◌, ◌<◌, ◌≡◌, Option, none, some, arith, get_elem?, get_elem?_of_lt, ◌>>=◌,
  Option-cases, inl, inr, ◌⊎◌, refl,
}
use vulkan_wsi_tizen.Enumerate.Results.{VkResult, success, error_device_lost}
use vulkan_wsi_tizen.Display.{Display, Extent, DisplayPlane, PhysicalDevice}
use vulkan_wsi_tizen.Display.Setup.{Tdm, AvailableSize}
use vulkan_wsi_tizen.Display.Ready.{IsReady}

abbrev square : ℕ → Extent
square n = record { width = n; height = n }

-- `VkDisplayPlaneCapabilitiesKHR`; a position is two `int32_t` bit patterns.
pub record PlaneCapabilities : Type 0 where
  pub supported_alpha : ℕ
  pub min_src_position : Extent
  pub max_src_position : Extent
  pub min_src_extent : Extent
  pub max_src_extent : Extent
  pub min_dst_position : Extent
  pub max_dst_position : Extent
  pub min_dst_extent : Extent
  pub max_dst_extent : Extent

-- `a - b` of two `int`s.
abbrev pub minus_int : ℕ → ℕ → ℕ
minus_int a b = (a + 2 ^ 32 - b) % 2 ^ 32

unfoldable pub plane_capabilities : AvailableSize → PlaneCapabilities
plane_capabilities size = record {
  supported_alpha = 3;
  min_src_position = square 0;
  max_src_position = record {
    width = minus_int size.most.width 1;
    height = minus_int size.most.height 1;
  };
  min_src_extent = square 1;
  max_src_extent = size.most;
  min_dst_position = square 0;
  max_dst_position = record {
    width = minus_int size.most.width size.least.width;
    height = minus_int size.most.height size.least.height;
  };
  min_dst_extent = size.least;
  max_dst_extent = size.most;
}

unfoldable pub store_plane_capabilities :
    Option AvailableSize → PlaneCapabilities → VkResult × PlaneCapabilities
store_plane_capabilities none caps = (error_device_lost, caps)
store_plane_capabilities (some size) caps = (success, plane_capabilities size)

-- The plane and the display that it shows are read without a test of the index.
unfoldable pub vk_get_display_plane_capabilities_khr :
    Tdm
    → PhysicalDevice
    → (plane_index : ℕ) → PlaneCapabilities
    → Option (VkResult × PlaneCapabilities)
vk_get_display_plane_capabilities_khr tdm phydev plane_index caps =
    get_elem? phydev.planes plane_index >>= λ plane.
    get_elem? phydev.displays plane.current_display >>= λ disp.
    some (store_plane_capabilities (tdm.get_available_size disp.tdm_output) caps)

-- That the least sizes are `int`s.
pub record AreInts (size : AvailableSize) : Type 0 where
  pub width : size.least.width < 2 ^ 32
  pub height : size.least.height < 2 ^ 32

-- `a + b` of two `int`s.
abbrev pub plus_int : ℕ → ℕ → ℕ
plus_int a b = (a + b) % 2 ^ 32

-- That the least extent at the greatest position just reaches the greatest extent, in both directions
-- and for the source and the destination, and that the greatest extents are the output's.
pub record Reaches (c : PlaneCapabilities) (size : AvailableSize) : Type 0 where
  pub src_width :
      plus_int c.max_src_position.width c.min_src_extent.width ≡ c.max_src_extent.width % 2 ^ 32
  pub src_height :
      plus_int c.max_src_position.height c.min_src_extent.height ≡ c.max_src_extent.height % 2 ^ 32
  pub dst_width :
      plus_int c.max_dst_position.width c.min_dst_extent.width ≡ c.max_dst_extent.width % 2 ^ 32
  pub dst_height :
      plus_int c.max_dst_position.height c.min_dst_extent.height ≡ c.max_dst_extent.height % 2 ^ 32
  pub src_most : c.max_src_extent ≡ size.most
  pub dst_most : c.max_dst_extent ≡ size.most
  pub dst_least : c.min_dst_extent ≡ size.least

-- The answer for a plane: TDM gives no size for the output of the display that the plane shows, or it
-- gives one.
abbrev pub Answers :
    Tdm → PhysicalDevice → DisplayPlane → PlaneCapabilities → VkResult × PlaneCapabilities → Type 0
Answers tdm pdev plane caps r =
    (disp : Display) × (get_elem? pdev.displays plane.current_display ≡ some disp)
    × ((tdm.get_available_size disp.tdm_output ≡ none) × (r ≡ (error_device_lost, caps))
        ⊎ ((size : AvailableSize) × (tdm.get_available_size disp.tdm_output ≡ some size)
            × (r.0 ≡ success)
            × Reaches r.1 size))

capabilities-Reaches :
    (size : AvailableSize) → AreInts size → Reaches (plane_capabilities size) size
unfolding plane_capabilities
capabilities-Reaches size ints = record {
  src_width = omega arith;
  src_height = omega arith;
  dst_width = omega (arith, ints.width);
  dst_height = omega (arith, ints.height);
  src_most = refl;
  dst_most = refl;
  dst_least = refl;
}

-- On a device as initialisation leaves it, and for the index of one of its planes, where the least
-- sizes that TDM gives are `int`s: the query of the plane never reads outside the arrays. If TDM gives
-- no size for the output of the display that the plane shows, it is a lost device, and the structure
-- of the caller is as it was; if TDM gives one, the greatest extents are the greatest size, and as
-- 32-bit sums, which may wrap around, the least extent at the greatest position just reaches the end
-- of the greatest extent, in both directions, for the source and for the destination.
pub plane_capabilities-fits :
    (tdm : Tdm) (pdev : PhysicalDevice) (i : ℕ) (plane : DisplayPlane) (caps : PlaneCapabilities)
    → IsReady pdev.display_count pdev
    → i < pdev.plane_count
    → get_elem? pdev.planes i ≡ some plane
    → ((o : ℕ) (size : AvailableSize) → tdm.get_available_size o ≡ some size → AreInts size)
    → (r : VkResult × PlaneCapabilities) × (vk_get_display_plane_capabilities_khr tdm pdev i caps
        ≡ some r)
      × Answers tdm pdev plane caps r
unfolding vk_get_display_plane_capabilities_khr store_plane_capabilities
plane_capabilities-fits tdm pdev i plane caps ok lt at ints =
    let owned = ok.owned i plane lt at in
    let (disp, there) =
      get_elem?_of_lt pdev.displays plane.current_display
        (omega (arith, owned.shows_lt, ok.displays_size, ok.display_le)) in
    let o = disp.tdm_output in
    elim (Option-cases (tdm.get_available_size o)) [
      | inl unknown ↦ ((error_device_lost, caps), ground arith, (disp, there, inl (unknown, refl)))
      | inr (size, known) ↦ (
        (success, plane_capabilities size),
        ground arith,
        (disp, there, inr (size, known, refl, capabilities-Reaches size (ints o size known))),
      )
    ]
