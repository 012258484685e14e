-- ===== src/TdmBackend/Balance.antt =====
-- The calls and callbacks of src/wsi/swapchain_tdm.c keep timelines, fences and buffers in balance.
use vulkan_wsi_tizen.Common.{
  ℕ, ◌+◌, ◌≡◌, refl, sym, ap, ◌∙◌, inl, inr, Bool, true, false, Option, none, some, List, [], ◌∷◌,
  ◌++◌, arith, ◌==◌, ==_iff, Bool-cases, Option-cases, ◌⊎◌,
}
use mathlib.Core.Path.{subst}
use vulkan_wsi_tizen.Enumerate.Results.{success}
use vulkan_wsi_tizen.TdmBackend.{
  UserData, SwapchainTdm, Event, set_buffer, returns, PresentAnswers,
  swapchain_tdm_output_commit_cb, wait_sync, increase_front, swapchain_tdm_queue_present_image,
}
use vulkan_wsi_tizen.TdmBackend.Timelines.{
  is_inc, is_shown, is_fence, is_front, Run, hold, Balanced, Inv,
}
use vulkan_wsi_tizen.Common.Counting.{count, count-append, indicator}
use vulkan_wsi_tizen.TdmBackend.Moves.{
  commit_cb-Moves, callbacks_loop-Moves, queue_present_image-Shown, increase_front-Moves,
}

module _ {S : Type 0} (u : UserData S) where
  pub Balanced-eq :
      (r : Run S) (q : ℕ) (v : Option (Option ℕ))
      → u.get_timeline r.chain.store q ≡ v
      → Balanced u r q v
      → Balanced u r q (u.get_timeline r.chain.store q)
  Balanced-eq r q v e b = subst (Balanced u r q) (sym e) b

  -- The two states of a buffer.
  pub Balanced-cases :
      (r : Run S) (q : ℕ)
      → Inv u r
      → (u.get_timeline r.chain.store q ≡ none × Balanced u r q none)
        ⊎ ((timeline : ℕ) × u.get_timeline r.chain.store q ≡ some (some timeline)
            × Balanced u r q (some (some timeline)))
  Balanced-cases r q inv = elim (Option-cases (u.get_timeline r.chain.store q)) [
    | inl fresh ↦ inl (fresh, subst (Balanced u r q) fresh (inv q))
    | inr (tl, has) ↦ elim (Option-cases tl) [
      | inl lost ↦ absurd (subst (Balanced u r q) (has ∙ ap some lost) (inv q))
      | inr (timeline, there) ↦
          inr (timeline, has ∙ ap some there, subst (Balanced u r q) (has ∙ ap some there) (inv q))
    ]
  ]

  -- A commit callback keeps the balance.
  pub callback-Inv :
      (r : Run S) (t : SwapchainTdm S) (events : List Event)
      → swapchain_tdm_output_commit_cb u r.chain ≡ some (t, events)
      → Inv u r
      → Inv u (record { chain = t; log = r.log ++ events; held = r.held })
  callback-Inv r t events run inv q =
      let m = commit_cb-Moves u q r.chain t events run in
      let kept = ap (λ st. u.get_timeline st q) m.store in
      let r' : Run S = record { chain = t; log = r.log ++ events; held = r.held } in
      let inc = count-append (is_inc q) r.log events in
      let show = count-append (is_shown q) r.log events in
      let fence = count-append (is_fence q) r.log events in
      elim (Balanced-cases r q inv) [
        | inl (fresh, bal) ↦
            let (incs, shown, fences, away, free) = bal in
            Balanced-eq r' q none (kept ∙ fresh) (
              omega (arith, inc, m.idle fresh),
              omega (arith, show, m.shown),
              omega (arith, fence, m.fences),
              m.away away,
              free,
            )
        | inr (timeline, has, bal) ↦
            let (incs, shown) = bal in
            Balanced-eq r' q (some (some timeline)) (kept ∙ has) (
              omega (arith, inc, show, m.incs timeline has, m.shown),
              omega (arith, show, fence, m.shown, m.fences),
            )
      ]

  wait_sync-none :
      (sync_fd : Option ℕ) (q : ℕ)
      → (count (is_inc q) (wait_sync u sync_fd) ≡ 0)
        × (count (is_shown q) (wait_sync u sync_fd) ≡ 0)
        × (count (is_fence q) (wait_sync u sync_fd) ≡ 0)
  unfolding wait_sync
  wait_sync-none none q = (refl, refl, refl)
  wait_sync-none (some fd) q = (refl, refl, refl)

  logged-count :
      (p : Event → Bool) (ws more last events : List Event) (surface : ℕ)
      → events ≡ ((ws ++ set_buffer surface ∷ []) ++ more) ++ last
      → count p events
        ≡ ((count p ws + count p (set_buffer surface ∷ [])) + count p more) + count p last
  logged-count p ws more last events surface e =
      let one = set_buffer surface ∷ [] in
      omega (
        arith,
        ap (count p) e,
        count-append p ((ws ++ one) ++ more) last,
        count-append p (ws ++ one) more,
        count-append p ws one,
      )

  -- What a present adds to the log of a buffer.
  pub record Presents (surface q : ℕ) (t t' : SwapchainTdm S) (events : List Event) : Type 0 where
    incs :
        (timeline : ℕ)
        → u.get_timeline t.store q ≡ some (some timeline)
        → count (is_inc q) events ≡ indicator (is_front t.front_buffer q)
    idle : u.get_timeline t.store q ≡ none → count (is_inc q) events ≡ 0
    shown : count (is_shown q) events ≡ indicator (surface == q)
    fences : count (is_fence q) events ≡ 0
    front : t'.front_buffer ≡ some surface
    pub store : t'.store ≡ t.store

  pub queue_present_image-Presents :
      (a : PresentAnswers) (surface q : ℕ) (sync_fd : Option ℕ) (t t' : SwapchainTdm S)
      (events : List Event)
      → a.acquire ≡ some surface
      → swapchain_tdm_queue_present_image u a sync_fd t ≡ returns success t' events
      → Presents surface q t t' events
  queue_present_image-Presents a surface q sync_fd t t' events given run =
      let w = queue_present_image-Shown u a surface sync_fd t t' events given run in
      let last = increase_front u w.between in
      let m = callbacks_loop-Moves u a.callbacks q t w.between w.more w.callbacks in
      let n = increase_front-Moves u q w.between in
      let kept = ap (λ st. u.get_timeline st q) m.store in
      let (no_inc, no_show, no_fence) = wait_sync-none sync_fd q in
      let parts = λ (p : Event → Bool).
        logged-count p (wait_sync u sync_fd) w.more last events surface w.logged in
      record {
        incs = λ timeline has.
            omega
              (arith, parts (is_inc q), no_inc, m.incs timeline has, n.incs timeline (kept ∙ has));
        idle =
            λ fresh. omega (arith, parts (is_inc q), no_inc, m.idle fresh, n.idle (kept ∙ fresh));
        shown = omega (arith, parts (is_shown q), no_show, m.shown, n.shown);
        fences = omega (arith, parts (is_fence q), no_fence, m.fences, n.fences);
        front = ap (λ (x : SwapchainTdm S). x.front_buffer) w.state;
        store = ap (λ (x : SwapchainTdm S). x.store) w.state ∙ m.store;
      }

  pub present-Inv :
      (r : Run S) (a : PresentAnswers) (sync_fd : Option ℕ) (surface : ℕ) (t : SwapchainTdm S)
      (events : List Event)
      → a.acquire ≡ some surface
      → r.held surface ≡ true
      → swapchain_tdm_queue_present_image u a sync_fd r.chain ≡ returns success t events
      → Inv u r
      → Inv u (record { chain = t; log = r.log ++ events; held = hold r.held surface false })
  present-Inv r a sync_fd surface t events given holds run inv q =
      let w = queue_present_image-Presents a surface q sync_fd r.chain t events given run in
      let kept = ap (λ st. u.get_timeline st q) w.store in
      let r' : Run S = record {
        chain = t;
        log = r.log ++ events;
        held = hold r.held surface false;
      } in
      let inc = count-append (is_inc q) r.log events in
      let show = count-append (is_shown q) r.log events in
      let fence = count-append (is_fence q) r.log events in
      let same = ==_iff surface q in
      elim (Balanced-cases r q inv) [
        | inl (fresh, bal) ↦
            let (incs, shown, fences, away, free) = bal in
            let other : (surface == q) ≡ false = elim (Bool-cases (surface == q)) [
              | inl e ↦ absurd (let is_q = same.0 e in ground arith)
              | inr e ↦ e
            ] in
            Balanced-eq r' q none (kept ∙ fresh) (
              omega (arith, inc, w.idle fresh),
              ground (arith, show, w.shown),
              omega (arith, fence, w.fences),
              ap (λ (x : Option ℕ). is_front x q) w.front ∙ other,
              ground arith,
            )
        | inr (timeline, has, bal) ↦
            let (incs, shown) = bal in
            let in_front = ap (λ (x : Option ℕ). is_front x q) w.front in
            let holds' : (surface == q) ≡ true → r.held q ≡ true =
              λ e. (let is_q = same.0 e in cc (is_q, holds)) in
            Balanced-eq r' q (some (some timeline)) (kept ∙ has) (
              ground (arith, inc, show, w.incs timeline has, w.shown, in_front),
              ground (arith, show, fence, w.shown, w.fences, holds'),
            )
      ]
