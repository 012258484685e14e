-- ===== src/TdmBackend/Locks.antt =====
-- The mutexes of src/wsi/swapchain_tdm.c: which calls leave them locked, and what comes of it.
use vulkan_wsi_tizen.Common.{
  ℕ, zero, suc, ◌≡◌, refl, inl, inr, Bool, true, false, ◌&&◌, not, Option, none, some, List, [],
  ◌++◌, arith, get_elem?, Option-cases, ◌⊎◌,
}
use vulkan_wsi_tizen.Enumerate.Results.{timeout, error_surface_lost_khr}
use vulkan_wsi_tizen.TdmBackend.{
  UserData, SwapchainTdm, Event, Presented, returns, blocks, Acquired, fails, acquired, sleeps,
  PresentAnswers, Wake, AcquireAnswers, increase_front, swapchain_tdm_output_commit_cb,
  callbacks_loop, finish_present, present_surface, swapchain_tdm_queue_present_image, take_buffer,
  is_timed, swapchain_tdm_acquire_next_image,
}
use vulkan_wsi_tizen.TdmBackend.Wait.{is_end, awake}

-- No thread holds a mutex.
pub record IsFree {S : Type 0} (t : SwapchainTdm S) : Type 0 where
  pub front : t.front_mutex ≡ false
  pub free_queue : t.free_queue_mutex ≡ false

-- The buffer came as far as the release, and that failed.
abbrev pub is_stuck : PresentAnswers → Bool
is_stuck a =
    a.enqueue
    && (has a.acquire && (a.set_layer_buffer && (a.commit && (a.handle_events && not a.release))))
  where
    has : Option ℕ → Bool
    has none = false
    has (some s) = true

module _ {S : Type 0} (u : UserData S) where
  callbacks_loop-IsFree :
      (n : ℕ) (t : SwapchainTdm S)
      → IsFree t
      → (t' : SwapchainTdm S) × (events : List Event) × (callbacks_loop u n t ≡ some (t', events))
        × IsFree t'
  unfolding callbacks_loop swapchain_tdm_output_commit_cb
  callbacks_loop-IsFree zero t free = (t, [], refl, free)
  callbacks_loop-IsFree (suc n) t free =
      let t1 = record t { front_buffer = none } in
      let (t', events, run, free') =
        callbacks_loop-IsFree n t1 (record { front = free.front; free_queue = free.free_queue }) in
      (t', increase_front u t ++ events, ground (arith, free.front), free')

  -- What a present leaves of the mutexes.
  abbrev pub LeavesLocks : PresentAnswers → Presented S → Type 0
  LeavesLocks a blocks = ⊥
  LeavesLocks a (returns res t events) =
      (t.front_mutex ≡ false)
      × (t.free_queue_mutex ≡ is_stuck a)
      × (is_stuck a ≡ true → res ≡ error_surface_lost_khr)

  -- A present that finds the mutexes free returns, whatever TBM and TDM answer. It leaves them
  -- free, unless the last release failed: then it returns the lost surface with the mutex of the
  -- free queue locked.
  pub queue_present_image-LeavesLocks :
      (a : PresentAnswers) (sync_fd : Option ℕ) (t : SwapchainTdm S)
      → IsFree t
      → LeavesLocks a (swapchain_tdm_queue_present_image u a sync_fd t)
  unfolding swapchain_tdm_queue_present_image present_surface finish_present
  queue_present_image-LeavesLocks a sync_fd t free =
      let (t', events, run, free') = callbacks_loop-IsFree a.callbacks t free in
      ground (arith, free.front, free.free_queue, free'.front, free'.free_queue)

  -- While the mutex of the free queue is locked, no acquire returns.
  pub acquire_next_image-sleeps :
      (a : AcquireAnswers) (limit : ℕ) (sync : Bool) (t : SwapchainTdm S)
      → t.free_queue_mutex ≡ true
      → swapchain_tdm_acquire_next_image u a limit sync t ≡ sleeps
  unfolding swapchain_tdm_acquire_next_image
  acquire_next_image-sleeps a limit sync t locked = ground arith

  -- What an acquire leaves of the mutexes: only a failure to dequeue keeps one.
  abbrev pub KeepsLocks : AcquireAnswers → Acquired S → Type 0
  KeepsLocks a sleeps = ⊥
  KeepsLocks a (fails res t) =
      (t.front_mutex ≡ false)
      × ((res ≡ timeout) × (t.free_queue_mutex ≡ false)
          ⊎ (res ≡ error_surface_lost_khr) × (a.dequeue ≡ none) × (t.free_queue_mutex ≡ true))
  KeepsLocks a (acquired surface fence t events) =
      (t.front_mutex ≡ false) × (t.free_queue_mutex ≡ false) × (a.dequeue ≡ some surface)

  -- An acquire that finds the mutexes free returns if a buffer is there at first, or some wake-up
  -- brings one or, where the wait is timed, comes by the timeout. It gives the buffer that TBM
  -- dequeues, with the mutexes free; or a timeout, with the mutexes free; or, if TBM does not
  -- dequeue one, a lost surface with the mutex of the free queue locked.
  pub acquire_next_image-KeepsLocks :
      (a : AcquireAnswers) (limit : ℕ) (sync : Bool) (t : SwapchainTdm S)
      → IsFree t
      → (a.can_dequeue ≡ true)
        ⊎ (i : ℕ) × (w : Wake) × (get_elem? a.wakes i ≡ some w) × (is_end (is_timed limit) w ≡ true)
      → KeepsLocks a (swapchain_tdm_acquire_next_image u a limit sync t)
  unfolding swapchain_tdm_acquire_next_image take_buffer
  acquire_next_image-KeepsLocks a limit sync t free ends =
      elim (awake (is_timed limit) a.can_dequeue a.wakes ends) [
        | inr late ↦ ground (arith, late, free.front, free.free_queue)
        | inl there ↦ elim (Option-cases (a.dequeue)) [
          | inl nothing ↦ ground (arith, there, nothing, free.front, free.free_queue)
          | inr (surface, got) ↦ ground (arith, there, got, free.front, free.free_queue)
        ]
      ]
