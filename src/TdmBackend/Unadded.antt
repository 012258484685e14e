-- ===== src/TdmBackend/Unadded.antt =====
-- src/wsi/swapchain_tdm.c adds the key of the timeline to a buffer before it stores under it, but
-- not the key of the timestamp, under which TBM then stores nothing.
use vulkan_wsi_tizen.Common.{
  ℕ, ◌+◌, ◌%◌, ◌^◌, ◌≡◌, refl, ap, sym, arith, false, ◌∙◌, inl, inr, true, Option, some, List,
  Option-cases,
}
use mathlib.Core.Path.{subst}
use vulkan_wsi_tizen.TdmBackend.{
  timeline_key, timestamp_key, swapchain_tdm_get_sync_fence, UserData, SwapchainTdm, Event,
  acquired, AcquireAnswers, swapchain_tdm_acquire_next_image,
}
use vulkan_wsi_tizen.TdmBackend.Timelines.{
  IsStore, Run, Step, acquire_step, present_step, callback_step, Reach, here, next,
}
use vulkan_wsi_tizen.TdmBackend.Moves.{commit_cb-Moves}
use vulkan_wsi_tizen.TdmBackend.Balance.{queue_present_image-Presents}
use vulkan_wsi_tizen.TdmBackend.Handout.{
  acquire_next_image-Fenced, get_sync_fence-some, get_sync_fence-none,
}

module _ {S : Type 0} (u : UserData S) (laws : IsStore u) where
  -- No buffer has the key of the timestamp, and each reads as the timestamp what it reads at first.
  record IsUnstamped (first : ℕ → ℕ) (st : S) : Type 0 where
    unadded : (q : ℕ) → laws.is_added st q timestamp_key ≡ false
    reads : (q : ℕ) → u.get_timestamp st q ≡ first q

  put_timestamp-IsUnstamped :
      (first : ℕ → ℕ) (st : S) (s n : ℕ)
      → IsUnstamped first st
      → IsUnstamped first (u.put_timestamp st s n)
  put_timestamp-IsUnstamped first st s n ok = record {
    unadded = λ q. laws.is_added-put_timestamp st s q n timestamp_key ∙ ok.unadded q;
    reads =
        λ q. ground (arith, laws.get_timestamp-put_timestamp st s q n, ok.unadded s, ok.reads q);
  }

  put_timeline-IsUnstamped :
      (first : ℕ → ℕ) (st : S) (s : ℕ) (tl : Option ℕ)
      → IsUnstamped first st
      → IsUnstamped first (u.put_timeline st s tl)
  put_timeline-IsUnstamped first st s tl ok = record {
    unadded = λ q. laws.is_added-put_timeline st s q timestamp_key tl ∙ ok.unadded q;
    reads = λ q. laws.get_timestamp-put_timeline st s q tl ∙ ok.reads q;
  }

  add_timeline_key-IsUnstamped :
      (first : ℕ → ℕ) (st : S) (s : ℕ)
      → IsUnstamped first st
      → IsUnstamped first (u.add_user_data st s timeline_key)
  add_timeline_key-IsUnstamped first st s ok = record {
    unadded = λ q.
        ground (arith, laws.is_added-add_user_data st s q timeline_key timestamp_key, ok.unadded q);
    reads = λ q. laws.get_timestamp-add_user_data st s q timeline_key refl ∙ ok.reads q;
  }

  -- What is stored for the fence of a buffer, be it the first or not.
  get_sync_fence-IsUnstamped :
      (a : AcquireAnswers) (first : ℕ → ℕ) (surface timeline : ℕ) (st : S)
      → a.new_timeline ≡ some timeline
      → IsUnstamped first st
      → IsUnstamped first (swapchain_tdm_get_sync_fence u a st surface).1
  get_sync_fence-IsUnstamped a first surface timeline st new ok =
      elim (Option-cases (u.get_timeline st surface)) [
        | inl fresh ↦ rw (get_sync_fence-none u a surface timeline st new fresh) (
            put_timestamp-IsUnstamped first _ surface 0 (
              put_timeline-IsUnstamped first _ surface (some timeline)
                (add_timeline_key-IsUnstamped first st surface ok)))
        | inr (tl, has) ↦
            rw (get_sync_fence-some u a surface tl st has)
              (put_timestamp-IsUnstamped first st surface _ ok)
      ]

  Step-IsUnstamped :
      (first : ℕ → ℕ) (r r' : Run S)
      → Step u r r'
      → IsUnstamped first r.chain.store
      → IsUnstamped first r'.chain.store
  Step-IsUnstamped first r r' (acquire_step a limit surface timeline fence t events new free run)
        ok =
      let w = acquire_next_image-Fenced u a limit surface fence r.chain t events run in
      subst (IsUnstamped first) (sym w.store)
        (get_sync_fence-IsUnstamped a first surface timeline r.chain.store new ok)
  Step-IsUnstamped first r r' (present_step a sync_fd surface t events given holds run) ok =
      let w = queue_present_image-Presents u a surface 0 sync_fd r.chain t events given run in
      subst (IsUnstamped first) (sym w.store) ok
  Step-IsUnstamped first r r' (callback_step t events run) ok =
      let m = commit_cb-Moves u 0 r.chain t events run in subst (IsUnstamped first) (sym m.store) ok

  Reach-IsUnstamped :
      (first : ℕ → ℕ) (r r' : Run S)
      → Reach u r r'
      → IsUnstamped first r.chain.store
      → IsUnstamped first r'.chain.store
  Reach-IsUnstamped first r r' here ok = ok
  Reach-IsUnstamped first r r' (next {s} path step) ok =
      Step-IsUnstamped first s r' step (Reach-IsUnstamped first r s path ok)

  -- Where TBM keeps data under the keys that were added, and under no other, and no buffer has the key
  -- of the timestamp at the start: in a run of acquires with fences, presents and commit callbacks that
  -- succeed, in any order, where the application acquires buffers that it does not hold and presents
  -- those that it holds, and every new timeline is made, no buffer gets that key, and the fence that
  -- an acquire then makes for a buffer with a timeline is for the timestamp after what is read at the
  -- start, however often the buffer has been shown.
  pub acquire_next_image-stale :
      (r0 r : Run S) (a : AcquireAnswers) (limit surface : ℕ) (timeline fence : Option ℕ)
      (t : SwapchainTdm S) (events : List Event)
      → ((q : ℕ) → laws.is_added r0.chain.store q timestamp_key ≡ false)
      → Reach u r0 r
      → u.get_timeline r.chain.store surface ≡ some timeline
      → swapchain_tdm_acquire_next_image u a limit true r.chain ≡ acquired surface fence t events
      → ((q : ℕ) → laws.is_added r.chain.store q timestamp_key ≡ false)
        × (fence ≡ a.new_fence timeline ((u.get_timestamp r0.chain.store surface + 1) % 2 ^ 32))
  acquire_next_image-stale r0 r a limit surface timeline fence t events unadded path has run =
      let w = acquire_next_image-Fenced u a limit surface fence r.chain t events run in
      let made = get_sync_fence-some u a surface timeline r.chain.store has in
      let ok =
        Reach-IsUnstamped (u.get_timestamp r0.chain.store) r0 r path
          (record { unadded = unadded; reads = λ q. refl }) in
      (
        ok.unadded,
        w.given
            ∙ ap (λ (x : Option ℕ × S × List Event). x.0) made
            ∙ ap (λ n. a.new_fence timeline ((n + 1) % 2 ^ 32)) (ok.reads surface),
      )
