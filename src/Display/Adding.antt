-- ===== src/Display/Adding.antt =====
-- One output of TDM, as `add_tdm_output` of src/wsi/display.c adds it to a well formed device.
use vulkan_wsi_tizen.Common.{
  ℕ, ◌+◌, ◌≤◌, ◌<◌, ◌≡◌, sym, ap, ◌∙◌, inl, inr, Option, some, List, arith, length, get_elem?,
  get_elem?_of_lt, set, length-set, set-cases, Bool-cases, get_elem?-set_self,
}
use vulkan_wsi_tizen.Display.{
  vk_max_display_count, vk_max_plane_count, Display, ModeParameters, PhysicalDevice,
}
use vulkan_wsi_tizen.Display.Setup.{Tdm, layer_rounds, set_up_display, add_tdm_output}
use vulkan_wsi_tizen.Display.Ready.{IsUp, IsReady, set_up_display-IsUp}
use vulkan_wsi_tizen.Display.Planes.{add_layers-MorePlanes}
use native.Mathlib.Decide.{dec_lt}

IsReady-mono : (a b : ℕ) (pdev : PhysicalDevice) → a ≤ b → IsReady a pdev → IsReady b pdev
IsReady-mono a b pdev le ok = record {
  displays_size = ok.displays_size;
  planes_size = ok.planes_size;
  display_le = ok.display_le;
  plane_le = ok.plane_le;
  wide = ok.wide;
  owned = λ j p below at.
      let o = ok.owned j p below at in
      record {
        shows_lt = omega (arith, o.shows_lt);
        one = o.one;
        first = o.first;
        shown = o.shown;
      };
  ready = ok.ready;
}

-- A write at or behind the count leaves the displays below it.
set_display-IsReady :
    (bound : ℕ) (pdev : PhysicalDevice) (d : Display)
    → IsReady bound pdev
    → IsReady bound (record pdev { displays = set pdev.displays pdev.display_count d })
set_display-IsReady bound pdev d ok = record {
  displays_size = length-set pdev.displays _ _ ∙ ok.displays_size;
  planes_size = ok.planes_size;
  display_le = ok.display_le;
  plane_le = ok.plane_le;
  wide = ok.wide;
  owned = ok.owned;
  ready = λ i e below at. elim (set-cases pdev.displays pdev.display_count i d e at) [
    | inl (same, new) ↦ absurd (omega arith)
    | inr (other, old) ↦ ok.ready i e below old
  ];
}

-- What adding an output keeps: at most one more display and as many planes as the output has layers.
pub record Added (layers : ℕ) (pdev pdev' : PhysicalDevice) : Type 0 where
  pub ready : IsReady pdev'.display_count pdev'
  pub displays : pdev'.display_count ≤ pdev.display_count + 1
  pub planes : pdev'.plane_count ≤ pdev.plane_count + layers

counted-IsReady :
    (k : ℕ) (pdev : PhysicalDevice) (d : Display)
    → IsReady (k + 1) pdev
    → pdev.display_count ≡ k
    → get_elem? pdev.displays k ≡ some d
    → IsUp k d
    → k < vk_max_display_count
    → IsReady (pdev.display_count + 1) (record pdev { display_count = pdev.display_count + 1 })
counted-IsReady k pdev d ok count at up room = record {
  displays_size = ok.displays_size;
  planes_size = ok.planes_size;
  display_le = omega arith;
  plane_le = ok.plane_le;
  wide = ok.wide;
  owned = rw count ok.owned;
  ready = λ i e below at'. elim (dec_lt i k) [
    | yes old ↦ ok.ready i e (omega arith) at'
    | no late ↦
        let last : i ≡ k = omega arith in
        let both : some e ≡ some d = sym at' ∙ ap (get_elem? pdev.displays) last ∙ at in
        let same : e ≡ d = cc both in rw (same, last) up
  ];
}

pub add_tdm_output-Added :
    (tdm : Tdm) (calloc : ℕ → ℕ → Option ℕ) (pdev : PhysicalDevice) (output : ℕ)
    → IsReady pdev.display_count pdev
    → pdev.display_count < vk_max_display_count
    → (modes : List ModeParameters) → tdm.get_available_modes output ≡ some modes
    → pdev.plane_count + layer_rounds tdm output (length modes) ≤ vk_max_plane_count
    → (pdev' : PhysicalDevice) × (add_tdm_output tdm calloc pdev output ≡ some pdev')
      × Added (layer_rounds tdm output (length modes)) pdev pdev'
unfolding add_tdm_output
add_tdm_output-Added tdm calloc pdev output ok room modes known plane_room =
    let k = pdev.display_count in
    let (old, at) = get_elem?_of_lt pdev.displays k (omega (arith, ok.displays_size)) in
    let (dpy, done) = set_up_display tdm calloc k output modes old in
    let p1 = record pdev { displays = set pdev.displays k dpy } in
    let ok1 : IsReady k p1 = set_display-IsReady k pdev dpy ok in
    elim (Bool-cases done) [
      | inr stopped ↦ (
        p1,
        rw (at, known, stopped),
        record { ready = ok1; displays = omega arith; planes = omega arith },
      )
      | inl finished ↦
          let (p2, run, more) =
            add_layers-MorePlanes tdm output k (layer_rounds tdm output (length modes)) 0 (k + 1) p1
              (IsReady-mono k (k + 1) p1 (omega arith) ok1) (omega arith) plane_room in
          let there : get_elem? p2.displays k ≡ some dpy =
            rw more.kept
              (get_elem?-set_self pdev.displays k dpy (omega (arith, ok.displays_size))) in
          (
            record p2 { display_count = p2.display_count + 1 },
            rw (at, known, finished, run),
            record {
              ready =
                  counted-IsReady k p2 dpy more.ready more.displays there
                    (set_up_display-IsUp tdm calloc k output modes old finished) room;
              displays = omega (arith, more.displays);
              planes = omega (arith, more.planes);
            },
          )
    ]
