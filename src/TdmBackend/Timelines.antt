-- ===== src/TdmBackend/Timelines.antt =====
-- The timelines by which src/wsi/swapchain_tdm.c says that a buffer has left the front: a run of a
-- swapchain as a sequence of calls that succeed and of commit callbacks, in any order.
use vulkan_wsi_tizen.Common.{
  ℕ, ◌+◌, ◌≡◌, Bool, true, false, Option, none, some, List, ◌++◌, ◌==◌, if◌then◌else◌,
}
use vulkan_wsi_tizen.Common.Counting.{indicator, count}
use vulkan_wsi_tizen.Enumerate.Results.{success}
use vulkan_wsi_tizen.TdmBackend.{
  Key, timeline_key, timestamp_key, UserData, SwapchainTdm, Event, set_buffer, timeline_inc,
  fence_create, returns, acquired, PresentAnswers, AcquireAnswers, swapchain_tdm_output_commit_cb,
  swapchain_tdm_queue_present_image, swapchain_tdm_acquire_next_image,
}

abbrev pub same_key : Key → Key → Bool
same_key timeline_key timeline_key = true
same_key timestamp_key timestamp_key = true
same_key k k' = false

-- What TBM documents: a key is added to a buffer, and from then on, but not before, data that is
-- stored under it reads back; the other buffers and the other key are left alone.
pub record IsStore {S : Type 0} (u : UserData S) : Type 0 where
  pub is_added : S → ℕ → Key → Bool
  pub is_added-add_user_data :
      (st : S) (s q : ℕ) (k j : Key)
      → is_added (u.add_user_data st s k) q j
        ≡ (if s == q then (if same_key k j then true else is_added st q j) else is_added st q j)
  pub is_added-put_timeline :
      (st : S) (s q : ℕ) (j : Key) (tl : Option ℕ)
      → is_added (u.put_timeline st s tl) q j ≡ is_added st q j
  pub is_added-put_timestamp :
      (st : S) (s q n : ℕ) (j : Key) → is_added (u.put_timestamp st s n) q j ≡ is_added st q j
  pub get_timeline-add_user_data :
      (st : S) (s q : ℕ) (k : Key)
      → (s == q) ≡ false
      → u.get_timeline (u.add_user_data st s k) q ≡ u.get_timeline st q
  pub get_timeline-put_timeline :
      (st : S) (s q : ℕ) (tl : Option ℕ)
      → u.get_timeline (u.put_timeline st s tl) q ≡ (
          if s == q
          then (if is_added st s timeline_key then some tl else u.get_timeline st q)
          else u.get_timeline st q)
  pub get_timeline-put_timestamp :
      (st : S) (s q n : ℕ) → u.get_timeline (u.put_timestamp st s n) q ≡ u.get_timeline st q
  pub get_timestamp-add_user_data :
      (st : S) (s q : ℕ) (k : Key)
      → same_key k timestamp_key ≡ false
      → u.get_timestamp (u.add_user_data st s k) q ≡ u.get_timestamp st q
  pub get_timestamp-put_timestamp :
      (st : S) (s q n : ℕ)
      → u.get_timestamp (u.put_timestamp st s n) q ≡ (
          if s == q
          then (if is_added st s timestamp_key then n else u.get_timestamp st q)
          else u.get_timestamp st q)
  pub get_timestamp-put_timeline :
      (st : S) (s q : ℕ) (tl : Option ℕ)
      → u.get_timestamp (u.put_timeline st s tl) q ≡ u.get_timestamp st q

-- How often an event of a buffer is in a log.
abbrev pub is_inc : ℕ → Event → Bool
is_inc q (timeline_inc s timeline) = s == q
is_inc q _ = false

abbrev pub is_shown : ℕ → Event → Bool
is_shown q (set_buffer s) = s == q
is_shown q _ = false

abbrev pub is_fence : ℕ → Event → Bool
is_fence q (fence_create s timeline timestamp) = s == q
is_fence q _ = false

abbrev pub is_front : Option ℕ → ℕ → Bool
is_front none q = false
is_front (some s) q = s == q

-- A run so far: the state, what was logged, and which buffers the application holds.
pub record Run (S : Type 0) : Type 0 where
  pub chain : SwapchainTdm S
  pub log : List Event
  pub held : ℕ → Bool

abbrev pub hold : (ℕ → Bool) → ℕ → Bool → ℕ → Bool
hold held s b q = if s == q then b else held q

module _ {S : Type 0} (u : UserData S) where
  -- The steps: the application acquires a buffer that it does not hold, with a fence; it presents
  -- one that it holds; or TDM calls back. A new timeline is taken to succeed.
  pub data Step (r : Run S) : Run S → Type 0 where
    acquire_step :
        (a : AcquireAnswers) (limit surface timeline : ℕ) (fence : Option ℕ) (t : SwapchainTdm S)
        (events : List Event)
        → a.new_timeline ≡ some timeline
        → r.held surface ≡ false
        → swapchain_tdm_acquire_next_image u a limit true r.chain ≡ acquired surface fence t events
        → Step r (record { chain = t; log = r.log ++ events; held = hold r.held surface true })
    present_step :
        (a : PresentAnswers) (sync_fd : Option ℕ) (surface : ℕ) (t : SwapchainTdm S)
        (events : List Event)
        → a.acquire ≡ some surface
        → r.held surface ≡ true
        → swapchain_tdm_queue_present_image u a sync_fd r.chain ≡ returns success t events
        → Step r (record { chain = t; log = r.log ++ events; held = hold r.held surface false })
    callback_step :
        (t : SwapchainTdm S) (events : List Event)
        → swapchain_tdm_output_commit_cb u r.chain ≡ some (t, events)
        → Step r (record { chain = t; log = r.log ++ events; held = r.held })

  pub data Reach (r : Run S) : Run S → Type 0 where
    here : Reach r r
    next : {s t : Run S} → Reach r s → Step s t → Reach r t

  -- What holds of a buffer without a timeline, and of one with a timeline.
  abbrev pub Balanced : Run S → ℕ → Option (Option ℕ) → Type 0
  Balanced r q none =
      (count (is_inc q) r.log ≡ 0)
      × (count (is_shown q) r.log ≡ 0)
      × (count (is_fence q) r.log ≡ 0)
      × (is_front r.chain.front_buffer q ≡ false)
      × (r.held q ≡ false)
  Balanced r q (some none) = ⊥
  Balanced r q (some (some timeline)) =
      (count (is_inc q) r.log + indicator (is_front r.chain.front_buffer q)
        ≡ count (is_shown q) r.log)
      × (count (is_fence q) r.log + 1 ≡ count (is_shown q) r.log + indicator (r.held q))

  abbrev pub Inv : Run S → Type 0
  Inv r = (q : ℕ) → Balanced r q (u.get_timeline r.chain.store q)
