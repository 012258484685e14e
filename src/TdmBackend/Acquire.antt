-- ===== src/TdmBackend/Acquire.antt =====
-- An acquire of src/wsi/swapchain_tdm.c keeps the balance of timelines and fences.
use vulkan_wsi_tizen.Common.{
  ℕ, ◌+◌, ◌%◌, ◌^◌, ◌≡◌, ap, ◌∙◌, inl, inr, true, false, Option, none, some, List, [], ◌∷◌, ◌++◌,
  arith, ◌==◌, ==_iff, Bool-cases,
}
use mathlib.Core.Path.{subst}
use vulkan_wsi_tizen.TdmBackend.{
  timeline_key, UserData, SwapchainTdm, Event, timeline_create, fence_create, acquired,
  AcquireAnswers, swapchain_tdm_acquire_next_image,
}
use vulkan_wsi_tizen.TdmBackend.Timelines.{
  IsStore, is_inc, is_shown, is_fence, is_front, Run, hold, Balanced, Inv,
}
use vulkan_wsi_tizen.Common.Counting.{count, count-append}
use vulkan_wsi_tizen.TdmBackend.Balance.{Balanced-eq, Balanced-cases}
use vulkan_wsi_tizen.TdmBackend.Handout.{
  acquire_next_image-Fenced, get_sync_fence-some, get_sync_fence-none,
}

module _ {S : Type 0} (u : UserData S) where
  -- The other buffers are left alone.
  Balanced-other :
      (r : Run S) (surface q : ℕ) (t : SwapchainTdm S) (events : List Event)
      → (surface == q) ≡ false
      → t.front_buffer ≡ r.chain.front_buffer
      → u.get_timeline t.store q ≡ u.get_timeline r.chain.store q
      → count (is_inc q) events ≡ 0
      → count (is_shown q) events ≡ 0
      → count (is_fence q) events ≡ 0
      → Inv u r
      → Balanced u
          (record { chain = t; log = r.log ++ events; held = hold r.held surface true })
          q
          (u.get_timeline t.store q)
  Balanced-other r surface q t events other front kept no_inc no_show no_fence inv =
      let r' : Run S = record {
        chain = t;
        log = r.log ++ events;
        held = hold r.held surface true;
      } in
      let inc = count-append (is_inc q) r.log events in
      let show = count-append (is_shown q) r.log events in
      let fence = count-append (is_fence q) r.log events in
      let in_front = ap (λ x. is_front x q) front in
      elim (Balanced-cases u r q inv) [
        | inl (fresh, bal) ↦
            let (incs, shown, fences, away, free) = bal in
            Balanced-eq u r' q none (kept ∙ fresh) (
              omega (arith, inc, no_inc),
              omega (arith, show, no_show),
              omega (arith, fence, no_fence),
              in_front ∙ away,
              ground arith,
            )
        | inr (timeline, has, bal) ↦
            let (incs, shown) = bal in
            Balanced-eq u r' q (some (some timeline)) (kept ∙ has) (
              ground (arith, inc, show, no_inc, no_show, in_front),
              ground (arith, show, fence, no_show, no_fence),
            )
      ]

  -- The first acquire of a buffer gives it a timeline.
  first-Balanced :
      (laws : IsStore u) (r : Run S) (a : AcquireAnswers) (surface timeline q : ℕ)
      (t : SwapchainTdm S) (events : List Event)
      → t.front_buffer ≡ r.chain.front_buffer
      → t.store
        ≡ u.put_timestamp
            (u.put_timeline
              (u.add_user_data r.chain.store surface timeline_key)
              surface
              (some timeline))
            surface
            0
      → events ≡ timeline_create surface ∷ []
      → Balanced u r surface none
      → Inv u r
      → Balanced u
          (record { chain = t; log = r.log ++ events; held = hold r.held surface true })
          q
          (u.get_timeline t.store q)
  first-Balanced laws r a surface timeline q t events front stored logged bal inv =
      let st = r.chain.store in
      let added = u.add_user_data st surface timeline_key in
      let put = u.put_timeline added surface (some timeline) in
      let is_there : laws.is_added added surface timeline_key ≡ true = ground (
        arith,
        laws.is_added-add_user_data st surface surface timeline_key timeline_key,
        ==_iff surface surface,
      ) in
      let timelines =
        ap (λ x. u.get_timeline x q) stored
        ∙ laws.get_timeline-put_timestamp put surface q 0
        ∙ laws.get_timeline-put_timeline added surface q (some timeline) in
      let r' : Run S = record {
        chain = t;
        log = r.log ++ events;
        held = hold r.held surface true;
      } in
      let inc = count-append (is_inc q) r.log events in
      let show = count-append (is_shown q) r.log events in
      let fence = count-append (is_fence q) r.log events in
      let no_inc = ap (count (is_inc q)) logged in
      let no_show = ap (count (is_shown q)) logged in
      let no_fence = ap (count (is_fence q)) logged in
      let same = ==_iff surface q in
      elim (Bool-cases (surface == q)) [
        | inr other ↦
            Balanced-other r surface q t events other front
              (ground
                (arith, timelines, laws.get_timeline-add_user_data st surface q timeline_key other))
              no_inc no_show no_fence inv
        | inl own ↦
            let (incs, shown, fences, away, free) =
              subst (λ q'. Balanced u r q' none) (same.0 own) bal in
            let in_front = ap (λ x. is_front x q) front in
            Balanced-eq u r' q (some (some timeline)) (ground (arith, timelines, is_there))
              (ground (arith, inc, show, in_front), ground (arith, show, fence))
      ]

  -- A later acquire of a buffer makes a fence for the next timestamp.
  later-Balanced :
      (laws : IsStore u) (r : Run S) (surface timeline q : ℕ) (t : SwapchainTdm S)
      (events : List Event)
      → let timestamp = (u.get_timestamp r.chain.store surface + 1) % 2 ^ 32 in
        t.front_buffer ≡ r.chain.front_buffer
        → t.store ≡ u.put_timestamp r.chain.store surface timestamp
        → events ≡ fence_create surface (some timeline) timestamp ∷ []
        → r.held surface ≡ false
        → u.get_timeline r.chain.store surface ≡ some (some timeline)
        → Balanced u r surface (some (some timeline))
        → Inv u r
        → Balanced u
            (record { chain = t; log = r.log ++ events; held = hold r.held surface true })
            q
            (u.get_timeline t.store q)
  later-Balanced laws r surface timeline q t events front stored logged free has bal inv =
      let st = r.chain.store in
      let timestamp = (u.get_timestamp st surface + 1) % 2 ^ 32 in
      let timelines =
        ap (λ x. u.get_timeline x q) stored
        ∙ laws.get_timeline-put_timestamp st surface q timestamp in
      let r' : Run S = record {
        chain = t;
        log = r.log ++ events;
        held = hold r.held surface true;
      } in
      let inc = count-append (is_inc q) r.log events in
      let show = count-append (is_shown q) r.log events in
      let fence = count-append (is_fence q) r.log events in
      let no_inc = ap (count (is_inc q)) logged in
      let no_show = ap (count (is_shown q)) logged in
      let a_fence = ap (count (is_fence q)) logged in
      let same = ==_iff surface q in
      elim (Bool-cases (surface == q)) [
        | inr other ↦
            Balanced-other r surface q t events other front timelines no_inc no_show
              (ground (arith, a_fence)) inv
        | inl own ↦
            let (incs, shown) =
              subst (λ q'. Balanced u r q' (some (some timeline))) (same.0 own) bal in
            let in_front = ap (λ x. is_front x q) front in
            let has' = subst (λ q'. u.get_timeline st q' ≡ some (some timeline)) (same.0 own) has in
            let free' = subst (λ q'. r.held q' ≡ false) (same.0 own) free in
            Balanced-eq u r' q (some (some timeline)) (timelines ∙ has')
              (ground (arith, inc, show, in_front), ground (arith, show, fence, a_fence))
      ]

  pub acquire-Inv :
      (laws : IsStore u) (r : Run S) (a : AcquireAnswers) (limit surface timeline : ℕ)
      (fence : Option ℕ) (t : SwapchainTdm S) (events : List Event)
      → a.new_timeline ≡ some timeline
      → r.held surface ≡ false
      → swapchain_tdm_acquire_next_image u a limit true r.chain ≡ acquired surface fence t events
      → Inv u r
      → Inv u (record { chain = t; log = r.log ++ events; held = hold r.held surface true })
  acquire-Inv laws r a limit surface timeline fence t events new free run inv q =
      let w = acquire_next_image-Fenced u a limit surface fence r.chain t events run in
      let st = r.chain.store in
      elim (Balanced-cases u r surface inv) [
        | inl (fresh, bal) ↦
            let made = get_sync_fence-none u a surface timeline st new fresh in
            first-Balanced laws r a surface timeline q t events w.front
              (w.store ∙ ap (λ (x : Option ℕ × S × List Event). x.1) made)
              (w.logged ∙ ap (λ (x : Option ℕ × S × List Event). x.2) made) bal inv
        | inr (timeline', has, bal) ↦
            let made = get_sync_fence-some u a surface (some timeline') st has in
            later-Balanced laws r surface timeline' q t events w.front
              (w.store ∙ ap (λ (x : Option ℕ × S × List Event). x.1) made)
              (w.logged ∙ ap (λ (x : Option ℕ × S × List Event). x.2) made) free has bal inv
      ]
