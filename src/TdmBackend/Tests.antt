-- ===== src/TdmBackend/Tests.antt =====
-- The backend of src/wsi/swapchain_tdm.c at concrete inputs.
use vulkan_wsi_tizen.Common.{
  ℕ, ◌+◌, ◌%◌, ◌^◌, ◌<◌, ◌≡◌, refl, inr, Bool, true, false, Option, none, some, List, [], ◌∷◌, ◌++◌,
  arith, ◌==◌, if◌then◌else◌,
}
use vulkan_wsi_tizen.Enumerate.Results.{success, error_surface_lost_khr}
use vulkan_wsi_tizen.TdmBackend.{
  Key, timeline_key, timestamp_key, UserData, SwapchainTdm, Event, set_buffer, timeline_create,
  fence_create, returns, acquired, sleeps, PresentAnswers, Wake, AcquireAnswers, wait_loop,
  swapchain_tdm_queue_present_image, swapchain_tdm_acquire_next_image, present_surface,
  finish_present, callbacks_loop, wait_sync, take_buffer, swapchain_tdm_get_sync_fence,
  add_timeline, increase_front, swapchain_tdm_output_commit_cb,
}
use vulkan_wsi_tizen.TdmBackend.Timeout.{
  Timespec, second, nanoseconds, absolute_time, absolute_time-nanoseconds,
}
use vulkan_wsi_tizen.TdmBackend.Wait.{Ending, wait_loop-Ending}
use vulkan_wsi_tizen.TdmBackend.Locks.{
  IsFree, LeavesLocks, KeepsLocks, queue_present_image-LeavesLocks, acquire_next_image-KeepsLocks,
}
use vulkan_wsi_tizen.TdmBackend.Stuck.{Laters, release_failure-sleeps}
use vulkan_wsi_tizen.TdmBackend.Timelines.{
  same_key, is_shown, is_fence, IsStore, Run, hold, acquire_step, present_step, Reach, here, next,
  is_inc, is_front,
}
use vulkan_wsi_tizen.Common.Counting.{count, indicator}
use vulkan_wsi_tizen.TdmBackend.Fences.{IsFresh, Reach-balanced}
use vulkan_wsi_tizen.TdmBackend.Unadded.{acquire_next_image-stale}

abbrev late : Timespec
late = record { tv_sec = 5; tv_nsec = 700000000 }

absolute_time-nanoseconds_example :
    (nanoseconds (absolute_time late 600000000) ≡ nanoseconds late + 600000000)
    × ((absolute_time late 600000000).tv_nsec < second)
absolute_time-nanoseconds_example = absolute_time-nanoseconds late 600000000 (omega arith)

abbrev three_wakes : List Wake
three_wakes =
    record { timed_out = false; can_dequeue = false }
    ∷ record { timed_out = false; can_dequeue = true }
    ∷ record { timed_out = true; can_dequeue = true }
    ∷ []

wait_loop-Ending_example : Ending true false three_wakes (wait_loop true false three_wakes)
wait_loop-Ending_example = wait_loop-Ending true false three_wakes

-- The data of buffers, as functions: a key keeps data once it is added.
record Store : Type 0 where
  added : ℕ → Key → Bool
  timelines : ℕ → Option (Option ℕ)
  timestamps : ℕ → ℕ

abbrev user_data : UserData Store
user_data = record {
  add_user_data = λ st s k. record st {
    added = λ q j. if s == q then (if same_key k j then true else st.added q j) else st.added q j;
    timelines = λ q.
        if s == q
        then (if same_key k timeline_key then some none else st.timelines q)
        else st.timelines q;
  };
  get_timeline = λ st q. st.timelines q;
  put_timeline = λ st s tl. record st {
    timelines = λ q.
        if s == q
        then (if st.added s timeline_key then some tl else st.timelines q)
        else st.timelines q;
  };
  get_timestamp = λ st q. st.timestamps q;
  put_timestamp = λ st s n. record st {
    timestamps = λ q.
        if s == q
        then (if st.added s timestamp_key then n else st.timestamps q)
        else st.timestamps q;
  };
}

user_data-IsStore : IsStore user_data
user_data-IsStore = record {
  is_added = λ st q j. st.added q j;
  is_added-add_user_data = λ st s q k j. refl;
  is_added-put_timeline = λ st s q j tl. refl;
  is_added-put_timestamp = λ st s q n j. refl;
  get_timeline-add_user_data = λ st s q k other. rw other refl;
  get_timeline-put_timeline = λ st s q tl. refl;
  get_timeline-put_timestamp = λ st s q n. refl;
  get_timestamp-add_user_data = λ st s q k other. refl;
  get_timestamp-put_timestamp = λ st s q n. refl;
  get_timestamp-put_timeline = λ st s q tl. refl;
}

abbrev new_chain : SwapchainTdm Store
new_chain = record {
  front_buffer = none;
  front_mutex = false;
  free_queue_mutex = false;
  store = record { added = λ q j. false; timelines = λ q. none; timestamps = λ q. 0 };
}

new_chain-IsFree : IsFree new_chain
new_chain-IsFree = record { front = refl; free_queue = refl }

-- The last step of this present fails.
abbrev no_release : PresentAnswers
no_release = record {
  enqueue = true;
  acquire = some 7;
  set_layer_buffer = true;
  commit = true;
  callbacks = 2;
  handle_events = true;
  release = false;
}

abbrev all_well : PresentAnswers
all_well = record no_release { release = true }

abbrev seventh : AcquireAnswers
seventh = record {
  can_dequeue = false;
  wakes = three_wakes;
  dequeue = some 7;
  new_timeline = some 5;
  new_fence = λ timeline timestamp. some (100 + timestamp);
}

queue_present_image-LeavesLocks_example :
    LeavesLocks user_data no_release
      (swapchain_tdm_queue_present_image user_data no_release (some 9) new_chain)
queue_present_image-LeavesLocks_example =
    queue_present_image-LeavesLocks user_data no_release (some 9) new_chain new_chain-IsFree

release_failure-sleeps_example :
    (t1 : SwapchainTdm Store) × (events : List Event) × (swapchain_tdm_queue_present_image user_data
        no_release
        (some 9)
        new_chain
      ≡ returns error_surface_lost_khr t1 events)
    × ((t2 : SwapchainTdm Store) (b : AcquireAnswers) (limit : ℕ) (sync : Bool)
        → Laters user_data t1 t2
        → swapchain_tdm_acquire_next_image user_data b limit sync t2 ≡ sleeps)
release_failure-sleeps_example =
    release_failure-sleeps user_data no_release (some 9) new_chain new_chain-IsFree refl

acquire_next_image-KeepsLocks_example :
    KeepsLocks user_data seventh
      (swapchain_tdm_acquire_next_image user_data seventh 1000 true new_chain)
acquire_next_image-KeepsLocks_example =
    acquire_next_image-KeepsLocks user_data seventh 1000 true new_chain new_chain-IsFree
      (inr (1, record { timed_out = false; can_dequeue = true }, refl, refl))

-- A buffer is acquired, presented and acquired again.
abbrev new_run : Run Store
new_run = record { chain = new_chain; log = []; held = λ q. false }

new_run-IsFresh : IsFresh user_data user_data-IsStore new_run
new_run-IsFresh = record {
  no_timeline = λ q. refl;
  no_front = refl;
  no_log = refl;
  none_held = λ q. refl;
}

abbrev with_timeline : SwapchainTdm Store
with_timeline = record new_chain {
  store =
      user_data.put_timestamp
        (user_data.put_timeline (user_data.add_user_data new_chain.store 7 timeline_key) 7 (some 5))
        7 0;
}

first_acquire :
    swapchain_tdm_acquire_next_image user_data seventh 1000 true new_chain
    ≡ acquired 7 none with_timeline (timeline_create 7 ∷ [])
unfolding swapchain_tdm_acquire_next_image take_buffer swapchain_tdm_get_sync_fence add_timeline
    wait_loop
first_acquire = refl

abbrev in_front : SwapchainTdm Store
in_front = record with_timeline { front_buffer = some 7 }

first_present :
    swapchain_tdm_queue_present_image user_data all_well none with_timeline
    ≡ returns success in_front (set_buffer 7 ∷ [])
unfolding swapchain_tdm_queue_present_image present_surface finish_present callbacks_loop wait_sync
    increase_front swapchain_tdm_output_commit_cb
first_present = refl

abbrev presented : Run Store
presented = record {
  chain = in_front;
  log = ([] ++ timeline_create 7 ∷ []) ++ set_buffer 7 ∷ [];
  held = hold (hold (λ q. false) 7 true) 7 false;
}

presented-Reach : Reach user_data new_run presented
presented-Reach =
    next
      (next here (
        acquire_step seventh 1000 7 5 none with_timeline (timeline_create 7 ∷ []) refl refl
          first_acquire))
      (present_step all_well none 7 in_front (set_buffer 7 ∷ []) refl refl first_present)

abbrev with_fence : SwapchainTdm Store
with_fence = record in_front { store = user_data.put_timestamp in_front.store 7 1 }

second_acquire :
    swapchain_tdm_acquire_next_image user_data seventh 1000 true in_front
    ≡ acquired 7 (some 101) with_fence (fence_create 7 (some 5) 1 ∷ [])
unfolding swapchain_tdm_acquire_next_image take_buffer swapchain_tdm_get_sync_fence wait_loop
second_acquire = refl

Reach-balanced_example :
    (count (is_inc 7) presented.log + indicator (is_front presented.chain.front_buffer 7)
      ≡ count (is_shown 7) presented.log)
    × (count (is_fence 7) presented.log + 1
        ≡ count (is_shown 7) presented.log + indicator (presented.held 7))
Reach-balanced_example =
    Reach-balanced user_data user_data-IsStore new_run presented 7 5 new_run-IsFresh presented-Reach
      refl

nothing_added : (q : ℕ) → user_data-IsStore.is_added new_run.chain.store q timestamp_key ≡ false
unfolding user_data-IsStore
nothing_added q = refl

acquire_next_image-stale_example :
    ((q : ℕ) → user_data-IsStore.is_added presented.chain.store q timestamp_key ≡ false)
    × (some 101
        ≡ seventh.new_fence (some 5) ((user_data.get_timestamp new_run.chain.store 7 + 1) % 2 ^ 32))
acquire_next_image-stale_example =
    acquire_next_image-stale user_data user_data-IsStore new_run presented seventh 1000 7 (some 5)
      (some 101) with_fence (fence_create 7 (some 5) 1 ∷ []) nothing_added presented-Reach refl
      second_acquire
