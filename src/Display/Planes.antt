-- ===== src/Display/Planes.antt =====
-- The layers that src/wsi/display.c adds as planes of a `vk_physical_device_t`.
use vulkan_wsi_tizen.Common.{
  ℕ, zero, suc, ◌+◌, ◌≤◌, ◌<◌, ◌≡◌, refl, ◌∙◌, inl, inr, some, arith, length, get_elem?_of_lt, set,
  length-set, get_elem?-set_self, set-cases, Option,
}
use vulkan_wsi_tizen.Display.{vk_max_plane_count, DisplayPlane, PhysicalDevice}
use vulkan_wsi_tizen.Display.Setup.{Tdm, add_tdm_layer, add_layers, new_plane}
use vulkan_wsi_tizen.Display.Ready.{IsOwned, IsReady}

new_plane-IsOwned :
    (tdm : Tdm) (plane : DisplayPlane) (layer : Option ℕ) (self bound : ℕ)
    → 0 < length plane.supported_displays
    → self < bound
    → IsOwned bound (new_plane tdm plane layer self)
unfolding new_plane
new_plane-IsOwned tdm plane layer self bound wide lt = record {
  shows_lt = lt;
  one = refl;
  first = get_elem?-set_self plane.supported_displays 0 self wide;
  shown = refl;
}

new_plane-wide :
    (tdm : Tdm) (plane : DisplayPlane) (layer : Option ℕ) (self : ℕ)
    → 0 < length plane.supported_displays
    → 0 < length (new_plane tdm plane layer self).supported_displays
unfolding new_plane
new_plane-wide tdm plane layer self wide = omega (arith, length-set plane.supported_displays 0 self)

set_plane-IsReady :
    (pdev : PhysicalDevice) (bound : ℕ) (p : DisplayPlane)
    → IsReady bound pdev
    → IsOwned bound p
    → 0 < length p.supported_displays
    → pdev.plane_count < vk_max_plane_count
    → IsReady bound (record pdev {
      plane_count = pdev.plane_count + 1;
      planes = set pdev.planes pdev.plane_count p;
    })
set_plane-IsReady pdev bound p ok its_own wide room = record {
  displays_size = ok.displays_size;
  planes_size = length-set pdev.planes _ _ ∙ ok.planes_size;
  display_le = ok.display_le;
  plane_le = omega arith;
  wide = λ j q at. elim (set-cases pdev.planes pdev.plane_count j p q at) [
    | inl (same, new) ↦ rw new wide
    | inr (other, old) ↦ ok.wide j q old
  ];
  owned = λ j q below at. elim (set-cases pdev.planes pdev.plane_count j p q at) [
    | inl (same, new) ↦ rw new its_own
    | inr (other, old) ↦ ok.owned j q (omega arith) old
  ];
  ready = ok.ready;
}

-- What a step over the planes keeps: `n` more planes, the same displays.
pub record MorePlanes (n bound : ℕ) (pdev pdev' : PhysicalDevice) : Type 0 where
  pub ready : IsReady bound pdev'
  pub planes : pdev'.plane_count ≡ pdev.plane_count + n
  pub displays : pdev'.display_count ≡ pdev.display_count
  pub kept : pdev'.displays ≡ pdev.displays

-- One more plane, of display `self`, in a device with room for it.
pub add_tdm_layer-MorePlanes :
    (tdm : Tdm) (pdev : PhysicalDevice) (layer : Option ℕ) (self bound : ℕ)
    → IsReady bound pdev
    → self < bound
    → pdev.plane_count < vk_max_plane_count
    → (pdev' : PhysicalDevice) × (add_tdm_layer tdm pdev layer self ≡ some pdev')
      × MorePlanes 1 bound pdev pdev'
unfolding add_tdm_layer
add_tdm_layer-MorePlanes tdm pdev layer self bound ok lt room =
    let (plane, at) =
      get_elem?_of_lt pdev.planes pdev.plane_count (omega (arith, ok.planes_size)) in
    let p = new_plane tdm plane layer self in
    let wide = ok.wide pdev.plane_count plane at in
    (
      record pdev {
        plane_count = pdev.plane_count + 1;
        planes = set pdev.planes pdev.plane_count p;
      },
      rw at,
      record {
        ready =
            set_plane-IsReady pdev bound p ok (new_plane-IsOwned tdm plane layer self bound wide lt)
              (new_plane-wide tdm plane layer self wide) room;
        planes = refl;
        displays = refl;
        kept = refl;
      },
    )

pub add_layers-MorePlanes :
    (tdm : Tdm) (output self n i bound : ℕ) (pdev : PhysicalDevice)
    → IsReady bound pdev
    → self < bound
    → pdev.plane_count + n ≤ vk_max_plane_count
    → (pdev' : PhysicalDevice) × (add_layers tdm output self n i pdev ≡ some pdev')
      × MorePlanes n bound pdev pdev'
unfolding add_layers
add_layers-MorePlanes tdm output self zero i bound pdev ok lt room =
    (pdev, refl, record { ready = ok; planes = omega arith; displays = refl; kept = refl })
add_layers-MorePlanes tdm output self (suc n) i bound pdev ok lt room =
    let (p1, run, step) =
      add_tdm_layer-MorePlanes tdm pdev (tdm.get_layer output i) self bound ok lt (omega arith) in
    let (p2, run', rest) =
      add_layers-MorePlanes tdm output self n (i + 1) bound p1 step.ready lt
        (omega (arith, step.planes)) in
    (
      p2,
      rw run run',
      record {
        ready = rest.ready;
        planes = omega (arith, step.planes, rest.planes);
        displays = rest.displays ∙ step.displays;
        kept = rest.kept ∙ step.kept;
      },
    )
