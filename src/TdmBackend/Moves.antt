-- ===== src/TdmBackend/Moves.antt =====
-- What the calls of src/wsi/swapchain_tdm.c do to the front buffer and log about it.
use vulkan_wsi_tizen.Common.{
  ℕ, zero, suc, ◌+◌, ◌≡◌, refl, ap, ◌∙◌, inl, inr, Bool, false, Option, none, some, List, [], ◌∷◌,
  ◌++◌, arith, ==_iff, Bool-cases, Option-cases, >>=-eq-some,
}
use vulkan_wsi_tizen.Enumerate.Results.{success}
use vulkan_wsi_tizen.TdmBackend.{
  UserData, SwapchainTdm, Event, set_buffer, returns, PresentAnswers,
  swapchain_tdm_increase_timestamp, increase_front, swapchain_tdm_output_commit_cb, callbacks_loop,
  finish_present, present_surface, wait_sync, swapchain_tdm_queue_present_image,
}
use vulkan_wsi_tizen.TdmBackend.Timelines.{is_inc, is_shown, is_fence, is_front}
use vulkan_wsi_tizen.Common.Counting.{count, count-append, indicator}

module _ {S : Type 0} (u : UserData S) where
  -- A buffer with a timeline leaves the front with one increase; another one is not increased.
  pub record Moves (q : ℕ) (t t' : SwapchainTdm S) (events : List Event) : Type 0 where
    pub store : t'.store ≡ t.store
    pub shown : count (is_shown q) events ≡ 0
    pub fences : count (is_fence q) events ≡ 0
    pub incs :
        (timeline : ℕ)
        → u.get_timeline t.store q ≡ some (some timeline)
        → count (is_inc q) events + indicator (is_front t'.front_buffer q)
          ≡ indicator (is_front t.front_buffer q)
    pub idle : u.get_timeline t.store q ≡ none → count (is_inc q) events ≡ 0
    pub away : is_front t.front_buffer q ≡ false → is_front t'.front_buffer q ≡ false

  Moves-refl : (q : ℕ) (t : SwapchainTdm S) → Moves q t t []
  Moves-refl q t = record {
    store = refl;
    shown = refl;
    fences = refl;
    incs = λ timeline h. omega arith;
    idle = λ h. refl;
    away = λ h. h;
  }

  pub Moves-trans :
      (q : ℕ) (t t1 t2 : SwapchainTdm S) (xs ys : List Event)
      → Moves q t t1 xs
      → Moves q t1 t2 ys
      → Moves q t t2 (xs ++ ys)
  Moves-trans q t t1 t2 xs ys m n =
      let same = ap (λ st. u.get_timeline st q) m.store in
      record {
        store = n.store ∙ m.store;
        shown = omega (arith, count-append (is_shown q) xs ys, m.shown, n.shown);
        fences = omega (arith, count-append (is_fence q) xs ys, m.fences, n.fences);
        incs = λ timeline h.
            omega
              (arith, count-append (is_inc q) xs ys, m.incs timeline h, n.incs timeline (same ∙ h));
        idle = λ h. omega (arith, count-append (is_inc q) xs ys, m.idle h, n.idle (same ∙ h));
        away = λ h. n.away (m.away h);
      }

  -- The front buffer is increased if it has a timeline.
  pub increase_front-Moves :
      (q : ℕ) (t : SwapchainTdm S)
      → Moves q t (record t { front_buffer = none }) (increase_front u t)
  unfolding increase_front swapchain_tdm_increase_timestamp
  increase_front-Moves q t = elim (Option-cases (t.front_buffer)) [
    | inl nobody ↦ record {
      store = refl;
      shown = ground arith;
      fences = ground arith;
      incs = λ timeline h. ground arith;
      idle = λ h. ground arith;
      away = λ h. refl;
    }
    | inr (s, front) ↦ record {
      store = refl;
      shown = ground arith;
      fences = ground arith;
      incs = λ timeline h. ground (arith, ==_iff s q);
      idle = λ h. ground (arith, ==_iff s q);
      away = λ h. refl;
    }
  ]

  Moves-eq :
      (q : ℕ) (t : SwapchainTdm S) (r r' : SwapchainTdm S × List Event)
      → some r ≡ some r'
      → Moves q t r.0 r.1
      → Moves q t r'.0 r'.1
  Moves-eq q t r r' e m =
      let same : r ≡ r' = cc e in
      let states = ap (λ (x : SwapchainTdm S × List Event). x.0) same in
      let logs = ap (λ (x : SwapchainTdm S × List Event). x.1) same in rw (← states, ← logs) m

  pub commit_cb-Moves :
      (q : ℕ) (t t' : SwapchainTdm S) (events : List Event)
      → swapchain_tdm_output_commit_cb u t ≡ some (t', events)
      → Moves q t t' events
  unfolding swapchain_tdm_output_commit_cb
  commit_cb-Moves q t t' events run = elim (Bool-cases (t.front_mutex)) [
    | inl locked ↦ absurd (ground arith)
    | inr free ↦
        Moves-eq q t (record t { front_buffer = none }, increase_front u t) (t', events)
          (ground arith) (increase_front-Moves q t)
  ]

  pub callbacks_loop-Moves :
      (n q : ℕ) (t t' : SwapchainTdm S) (events : List Event)
      → callbacks_loop u n t ≡ some (t', events)
      → Moves q t t' events
  unfolding callbacks_loop
  callbacks_loop-Moves zero q t t' events run =
      Moves-eq q t (t, []) (t', events) run (Moves-refl q t)
  callbacks_loop-Moves (suc n) q t t' events run =
      let ((t1, xs), first, rest) = >>=-eq-some (swapchain_tdm_output_commit_cb u t) _ run in
      let ((t2, ys), more, last) = >>=-eq-some (callbacks_loop u n t1) _ rest in
      Moves-eq q t (t2, xs ++ ys) (t', events) last
        (Moves-trans q t t1 t2 xs ys (commit_cb-Moves q t t1 xs first)
          (callbacks_loop-Moves n q t1 t2 ys more))

  -- What a present that succeeds has done.
  pub record Shown (a : PresentAnswers) (surface : ℕ) (sync_fd : Option ℕ) (t t' : SwapchainTdm S)
      (events : List Event) : Type 0 where
    pub between : SwapchainTdm S
    pub more : List Event
    pub callbacks : callbacks_loop u a.callbacks t ≡ some (between, more)
    pub state : t' ≡ record between { front_buffer = some surface }
    pub logged :
        events
        ≡ ((wait_sync u sync_fd ++ set_buffer surface ∷ []) ++ more) ++ increase_front u between

  returns-inj :
      {t t' : SwapchainTdm S} {events events' : List Event}
      → returns success t events ≡ returns success t' events'
      → (t' ≡ t) × (events' ≡ events)
  returns-inj e = (cc e, cc e)

  -- The last part of a present that succeeds.
  finish_present-returns :
      (release : Bool) (surface : ℕ) (t t' : SwapchainTdm S) (log events : List Event)
      → finish_present u release surface t log ≡ returns success t' events
      → (t' ≡ record t { front_buffer = some surface }) × (events ≡ log ++ increase_front u t)
  unfolding finish_present
  finish_present-returns release surface t t' log events run =
      elim (Bool-cases (t.free_queue_mutex)) [
        | inl locked ↦ absurd (ground arith)
        | inr free ↦ elim (Bool-cases release) [
          | inr failed ↦ absurd (ground arith)
          | inl released ↦ elim (Bool-cases (t.front_mutex)) [
            | inl locked ↦ absurd (ground arith)
            | inr unlocked ↦ returns-inj (ground arith)
          ]
        ]
      ]

  pub queue_present_image-Shown :
      (a : PresentAnswers) (surface : ℕ) (sync_fd : Option ℕ) (t t' : SwapchainTdm S)
      (events : List Event)
      → a.acquire ≡ some surface
      → swapchain_tdm_queue_present_image u a sync_fd t ≡ returns success t' events
      → Shown a surface sync_fd t t' events
  unfolding swapchain_tdm_queue_present_image present_surface
  queue_present_image-Shown a surface sync_fd t t' events next run =
      elim (Option-cases (callbacks_loop u a.callbacks t)) [
        | inl stuck ↦ absurd (ground arith)
        | inr ((t1, more), ran) ↦
            let (state, logged) =
              finish_present-returns a.release surface t1 t'
                ((wait_sync u sync_fd ++ set_buffer surface ∷ []) ++ more) events (ground arith) in
            record { between = t1; more = more; callbacks = ran; state = state; logged = logged }
      ]
