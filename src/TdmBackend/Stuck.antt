-- ===== src/TdmBackend/Stuck.antt =====
-- What comes of a present of src/wsi/swapchain_tdm.c that leaves the mutex of the free queue locked.
use vulkan_wsi_tizen.Common.{
  ℕ, zero, suc, ◌≡◌, refl, ◌∙◌, inl, inr, Bool, true, Option, some, List, arith, Option-cases, ap,
  >>=-eq-some,
}
use vulkan_wsi_tizen.Enumerate.Results.{VkResult, error_surface_lost_khr}
use vulkan_wsi_tizen.TdmBackend.{
  UserData, SwapchainTdm, Event, Presented, returns, blocks, fails, acquired, sleeps,
  PresentAnswers, AcquireAnswers, swapchain_tdm_output_commit_cb, callbacks_loop, finish_present,
  present_surface, swapchain_tdm_queue_present_image, swapchain_tdm_acquire_next_image,
}
use vulkan_wsi_tizen.TdmBackend.Locks.{
  IsFree, is_stuck, LeavesLocks, queue_present_image-LeavesLocks, acquire_next_image-sleeps,
}

module _ {S : Type 0} (u : UserData S) where
  -- A call, or a callback, that returns: a present, with any result, an acquire, or a commit callback.
  pub data Later (t : SwapchainTdm S) : SwapchainTdm S → Type 0 where
    presents :
        (a : PresentAnswers) (sync_fd : Option ℕ) (res : VkResult) (t' : SwapchainTdm S)
        (events : List Event)
        → swapchain_tdm_queue_present_image u a sync_fd t ≡ returns res t' events
        → Later t t'
    acquire_fails :
        (a : AcquireAnswers) (limit : ℕ) (sync : Bool) (res : VkResult) (t' : SwapchainTdm S)
        → swapchain_tdm_acquire_next_image u a limit sync t ≡ fails res t'
        → Later t t'
    acquires :
        (a : AcquireAnswers) (limit : ℕ) (sync : Bool) (surface : ℕ) (fence : Option ℕ)
        (t' : SwapchainTdm S) (events : List Event)
        → swapchain_tdm_acquire_next_image u a limit sync t ≡ acquired surface fence t' events
        → Later t t'
    commits :
        (t' : SwapchainTdm S) (events : List Event)
        → swapchain_tdm_output_commit_cb u t ≡ some (t', events)
        → Later t t'

  -- Any number of these, in any order.
  pub data Laters (t : SwapchainTdm S) : SwapchainTdm S → Type 0 where
    at_once : Laters t t
    then_one : {t' t'' : SwapchainTdm S} → Laters t t' → Later t' t'' → Laters t t''

  commit_cb-locked :
      (t t' : SwapchainTdm S) (events : List Event)
      → t.free_queue_mutex ≡ true
      → swapchain_tdm_output_commit_cb u t ≡ some (t', events)
      → t'.free_queue_mutex ≡ true
  unfolding swapchain_tdm_output_commit_cb
  commit_cb-locked t t' events locked run = ground arith

  callbacks_loop-locked :
      (n : ℕ) (t t' : SwapchainTdm S) (events : List Event)
      → t.free_queue_mutex ≡ true
      → callbacks_loop u n t ≡ some (t', events)
      → t'.free_queue_mutex ≡ true
  unfolding callbacks_loop
  callbacks_loop-locked zero t t' events locked run = ground arith
  callbacks_loop-locked (suc n) t t' events locked run =
      let ((t1, xs), first, rest) = >>=-eq-some (swapchain_tdm_output_commit_cb u t) _ run in
      let ((t2, ys), more, last) = >>=-eq-some (callbacks_loop u n t1) _ rest in
      let locked1 = commit_cb-locked t t1 xs locked first in
      ground (arith, callbacks_loop-locked n t1 t2 ys locked1 more)

  queue_present_image-locked :
      (a : PresentAnswers) (sync_fd : Option ℕ) (res : VkResult) (t t' : SwapchainTdm S)
      (events : List Event)
      → t.free_queue_mutex ≡ true
      → swapchain_tdm_queue_present_image u a sync_fd t ≡ returns res t' events
      → t'.free_queue_mutex ≡ true
  unfolding swapchain_tdm_queue_present_image present_surface finish_present
  queue_present_image-locked a sync_fd res t t' events locked run =
      elim (Option-cases (callbacks_loop u a.callbacks t)) [
        | inl stuck ↦ ground arith
        | inr ((t1, more), ran) ↦
            ground (arith, callbacks_loop-locked a.callbacks t t1 more locked ran)
      ]

  Later-locked :
      (t t' : SwapchainTdm S) → Later t t' → t.free_queue_mutex ≡ true → t'.free_queue_mutex ≡ true
  Later-locked t _ (presents a sync_fd res t' events run) locked =
      queue_present_image-locked a sync_fd res t t' events locked run
  Later-locked t _ (acquire_fails a limit sync res t' run) locked =
      absurd (cc (acquire_next_image-sleeps u a limit sync t locked, run))
  Later-locked t _ (acquires a limit sync surface fence t' events run) locked =
      absurd (cc (acquire_next_image-sleeps u a limit sync t locked, run))
  Later-locked t _ (commits t' events run) locked = commit_cb-locked t t' events locked run

  Laters-locked :
      (t t' : SwapchainTdm S) → Laters t t' → t.free_queue_mutex ≡ true → t'.free_queue_mutex ≡ true
  Laters-locked t _ at_once locked = locked
  Laters-locked t t'' (then_one {t'} path step) locked =
      Later-locked t' t'' step (Laters-locked t t' path locked)

  -- If a present that finds the mutexes free comes as far as the release of the buffer, and that
  -- fails, then the present returns a lost surface, and from then on, whatever presents, acquires and
  -- commit callbacks return in between, and with whatever answers, no acquire on the swapchain
  -- returns.
  pub release_failure-sleeps :
      (a : PresentAnswers) (sync_fd : Option ℕ) (t : SwapchainTdm S)
      → IsFree t
      → is_stuck a ≡ true
      → (t1 : SwapchainTdm S) × (events : List Event) × (swapchain_tdm_queue_present_image u a
            sync_fd t
          ≡ returns error_surface_lost_khr t1 events)
        × ((t2 : SwapchainTdm S) (b : AcquireAnswers) (limit : ℕ) (sync : Bool)
            → Laters t1 t2
            → swapchain_tdm_acquire_next_image u b limit sync t2 ≡ sleeps)
  release_failure-sleeps a sync_fd t free stuck =
      left (swapchain_tdm_queue_present_image u a sync_fd t) refl
        (queue_present_image-LeavesLocks u a sync_fd t free)
    where
      left :
          (r : Presented S)
          → swapchain_tdm_queue_present_image u a sync_fd t ≡ r
          → LeavesLocks u a r
          → (t1 : SwapchainTdm S) × (events : List Event) × (swapchain_tdm_queue_present_image u a
                sync_fd t
              ≡ returns error_surface_lost_khr t1 events)
            × ((t2 : SwapchainTdm S) (b : AcquireAnswers) (limit : ℕ) (sync : Bool)
                → Laters t1 t2
                → swapchain_tdm_acquire_next_image u b limit sync t2 ≡ sleeps)
      left blocks e locks = absurd locks
      left (returns res t1 events) e (front, queue, lost) = (
        t1,
        events,
        e ∙ ap (λ x. returns x t1 events) (lost stuck),
        λ t2 b limit sync path.
            acquire_next_image-sleeps u b limit sync t2 (Laters-locked t1 t2 path (queue ∙ stuck)),
      )
