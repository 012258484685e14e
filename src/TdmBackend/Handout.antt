-- ===== src/TdmBackend/Handout.antt =====
-- What an acquire of src/wsi/swapchain_tdm.c hands out, stores and logs.
use vulkan_wsi_tizen.Common.{
  ℕ, ◌+◌, ◌%◌, ◌^◌, ◌≡◌, sym, ap, inl, inr, true, Option, none, some, List, [], ◌∷◌, arith,
  Option-cases,
}
use vulkan_wsi_tizen.TdmBackend.{
  timeline_key, UserData, SwapchainTdm, Event, timeline_create, fence_create, acquired,
  AcquireAnswers, add_timeline, swapchain_tdm_get_sync_fence, take_buffer,
  swapchain_tdm_acquire_next_image,
}

module _ {S : Type 0} (u : UserData S) where
  -- What an acquire that succeeds has done.
  pub record Fenced (a : AcquireAnswers) (surface : ℕ) (fence : Option ℕ) (t t' : SwapchainTdm S)
      (events : List Event) : Type 0 where
    pub front : t'.front_buffer ≡ t.front_buffer
    pub given : fence ≡ (swapchain_tdm_get_sync_fence u a t.store surface).0
    pub store : t'.store ≡ (swapchain_tdm_get_sync_fence u a t.store surface).1
    pub logged : events ≡ (swapchain_tdm_get_sync_fence u a t.store surface).2

  acquired-inj :
      {s s' : ℕ} {f f' : Option ℕ} {t t' : SwapchainTdm S} {events events' : List Event}
      → acquired s f t events ≡ acquired s' f' t' events'
      → (s ≡ s') × (f ≡ f') × (t ≡ t') × (events ≡ events')
  acquired-inj e = (cc e, cc e, cc e, cc e)

  take_buffer-Fenced :
      (a : AcquireAnswers) (surface : ℕ) (fence : Option ℕ) (t t' : SwapchainTdm S)
      (events : List Event)
      → take_buffer u a true t ≡ acquired surface fence t' events
      → Fenced a surface fence t t' events
  unfolding take_buffer
  take_buffer-Fenced a surface fence t t' events run = elim (Option-cases (a.dequeue)) [
    | inl empty ↦ absurd (ground arith)
    | inr (s, given) ↦
        let made = swapchain_tdm_get_sync_fence u a t.store s in
        let whole : acquired s made.0 (record t { store = made.1 }) made.2
            ≡ acquired surface fence t' events =
          ground arith in
        let (same, fences, states, logs) = acquired-inj whole in
        let fronts = ap (λ (x : SwapchainTdm S). x.front_buffer) states in
        let stores = ap (λ (x : SwapchainTdm S). x.store) states in
        record {
          front = sym fronts;
          given = cc (same, fences);
          store = cc (same, stores);
          logged = cc (same, logs);
        }
  ]

  pub acquire_next_image-Fenced :
      (a : AcquireAnswers) (limit surface : ℕ) (fence : Option ℕ) (t t' : SwapchainTdm S)
      (events : List Event)
      → swapchain_tdm_acquire_next_image u a limit true t ≡ acquired surface fence t' events
      → Fenced a surface fence t t' events
  unfolding swapchain_tdm_acquire_next_image
  acquire_next_image-Fenced a limit surface fence t t' events run =
      take_buffer-Fenced a surface fence t t' events (ground arith)

  -- The fence, the data and the log for a buffer with a timeline, and for one without.
  pub get_sync_fence-some :
      (a : AcquireAnswers) (surface : ℕ) (timeline : Option ℕ) (st : S)
      → u.get_timeline st surface ≡ some timeline
      → let timestamp = (u.get_timestamp st surface + 1) % 2 ^ 32 in
        swapchain_tdm_get_sync_fence u a st surface ≡ (
          a.new_fence timeline timestamp,
          u.put_timestamp st surface timestamp,
          fence_create surface timeline timestamp ∷ [],
        )
  unfolding swapchain_tdm_get_sync_fence
  get_sync_fence-some a surface timeline st has = ground arith

  pub get_sync_fence-none :
      (a : AcquireAnswers) (surface timeline : ℕ) (st : S)
      → a.new_timeline ≡ some timeline
      → u.get_timeline st surface ≡ none
      → swapchain_tdm_get_sync_fence u a st surface ≡ (
        none,
        u.put_timestamp
            (u.put_timeline (u.add_user_data st surface timeline_key) surface (some timeline))
            surface
            0,
        timeline_create surface ∷ [],
      )
  unfolding swapchain_tdm_get_sync_fence add_timeline
  get_sync_fence-none a surface timeline st new has = ground arith
