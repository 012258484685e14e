-- ===== src/TdmBackend.antt =====
-- src/wsi/swapchain_tdm.c: the backend of swapchains on a display. What TBM, TDM and the clock
-- answer is a parameter; buffers, fences and timelines are numbers, and `none` for a file
-- descriptor is -1.
pub mod Timeout
pub mod Wait
pub mod Locks
pub mod Stuck
pub mod Timelines
pub mod Moves
pub mod Balance
pub mod Handout
pub mod Acquire
pub mod Fences
pub mod Unadded
pub mod SetUp
pub mod Effects
pub mod Lifecycle
mod Tests
mod LifecycleTests
use vulkan_wsi_tizen.Common.{
  ℕ, zero, suc, ◌+◌, ◌*◌, ◌/◌, ◌%◌, ◌^◌, Bool, true, false, ◌&&◌, not, Option, none, some, List, [],
  ◌∷◌, ◌++◌, ltb, leb, ◌==◌, if◌then◌else◌, ◌>>=◌, ◌-◌,
}
use vulkan_wsi_tizen.Enumerate.Results.{VkResult, success, timeout, error_surface_lost_khr}

-- `swapchain_tdm_timeline_key` and `swapchain_tdm_timestamp_key`.
pub data Key : Type 0 where
  timeline_key timestamp_key : Key

-- The data that the code has TBM keep with a buffer: `tbm_surface_internal_add_user_data` for a buffer
-- and a key, and the queries and stores under the two keys. A timeline is `none` where the query
-- finds none; the result of the query of a timestamp is not looked at, and `get_timestamp` is what its
-- variable holds afterwards.
pub record UserData (S : Type 0) : Type 0 where
  pub add_user_data : S → ℕ → Key → S
  pub get_timeline : S → ℕ → Option (Option ℕ)
  pub put_timeline : S → ℕ → Option ℕ → S
  pub get_timestamp : S → ℕ → ℕ
  pub put_timestamp : S → ℕ → ℕ → S

-- `struct vk_swapchain_tdm`, as far as it changes between the calls, with the state of its mutexes.
pub record SwapchainTdm (S : Type 0) : Type 0 where
  pub front_buffer : Option ℕ
  pub front_mutex : Bool
  pub free_queue_mutex : Bool
  pub store : S

-- The calls of TBM and TDM that are logged, each with its buffer.
pub data Event : Type 0 where
  fence_wait close_fence : ℕ → Event
  set_buffer : ℕ → Event
  timeline_create : ℕ → Event
  timeline_inc : (surface timeline : ℕ) → Event
  fence_create : (surface : ℕ) → (timeline : Option ℕ) → (timestamp : ℕ) → Event

-- How a call ends: it returns, or it waits for a mutex or a condition and does not return.
pub data Presented (S : Type 0) : Type 0 where
  returns : VkResult → SwapchainTdm S → List Event → Presented S
  blocks : Presented S

pub data Acquired (S : Type 0) : Type 0 where
  fails : VkResult → SwapchainTdm S → Acquired S
  acquired : (surface : ℕ) → (fence : Option ℕ) → SwapchainTdm S → List Event → Acquired S
  sleeps : Acquired S

-- The answers that a present gets, in order: TBM takes the buffer, gives the next one, TDM sets and
-- commits it, runs so many callbacks, handles the events, and TBM takes the buffer back.
pub record PresentAnswers : Type 0 where
  pub enqueue : Bool
  pub acquire : Option ℕ
  pub set_layer_buffer : Bool
  pub commit : Bool
  pub callbacks : ℕ
  pub handle_events : Bool
  pub release : Bool

-- A wake-up in the loop that waits for a buffer: if the wait timed out, and if a buffer is there then.
pub record Wake : Type 0 where
  pub timed_out : Bool
  pub can_dequeue : Bool

-- What an acquire gets: if a buffer is there at first, the wake-ups, the buffer, and for its fence
-- a new timeline or a fence for a timeline and a timestamp.
pub record AcquireAnswers : Type 0 where
  pub can_dequeue : Bool
  pub wakes : List Wake
  pub dequeue : Option ℕ
  pub new_timeline : Option ℕ
  pub new_fence : Option ℕ → ℕ → Option ℕ

-- The end of the loop that waits.
pub data Waited : Type 0 where
  ready timed_out waiting : Waited

unfoldable pub wait_loop : (timed : Bool) → (can_dequeue : Bool) → List Wake → Waited
wait_loop timed true wakes = ready
wait_loop timed false [] = waiting
wait_loop timed false (w ∷ wakes) =
    let rest = wait_loop timed w.can_dequeue wakes in
    if timed && w.timed_out then timed_out else rest

-- `timeout != UINT64_MAX`
abbrev pub is_timed : ℕ → Bool
is_timed limit = not (limit == 2 ^ 64 - 1)

module _ {S : Type 0} (u : UserData S) where
  unfoldable pub swapchain_tdm_increase_timestamp : S → ℕ → List Event
  swapchain_tdm_increase_timestamp store surface = elim (u.get_timeline store surface) [
    | none ↦ []
    | some none ↦ []
    | some (some timeline) ↦ timeline_inc surface timeline ∷ []
  ]

  -- `if (front_buffer) swapchain_tdm_increase_timestamp(front_buffer);`
  unfoldable pub increase_front : SwapchainTdm S → List Event
  increase_front t = elim (t.front_buffer) [
    | none ↦ []
    | some surface ↦ swapchain_tdm_increase_timestamp t.store surface
  ]

  -- The callback of a commit; `none` if it waits for the mutex.
  unfoldable pub swapchain_tdm_output_commit_cb :
      SwapchainTdm S → Option (SwapchainTdm S × List Event)
  swapchain_tdm_output_commit_cb t =
      if t.front_mutex then none else some (record t { front_buffer = none }, increase_front t)

  -- The callbacks that `tdm_display_handle_events` runs.
  unfoldable pub callbacks_loop : ℕ → SwapchainTdm S → Option (SwapchainTdm S × List Event)
  callbacks_loop zero t = some (t, [])
  callbacks_loop (suc n) t = swapchain_tdm_output_commit_cb t >>= λ r.
      callbacks_loop n r.0 >>= λ r'. some (r'.0, r.1 ++ r'.1)

  -- From the release of the buffer on; a failure returns with the mutex locked.
  unfoldable pub finish_present : (release : Bool) → ℕ → SwapchainTdm S → List Event → Presented S
  finish_present release surface t events =
      if t.free_queue_mutex
      then blocks
      else if release
      then (if t.front_mutex
          then blocks
          else returns success (record t { front_buffer = some surface })
              (events ++ increase_front t))
      else returns error_surface_lost_khr (record t { free_queue_mutex = true }) events

  -- From the buffer that TBM gives for the one that is presented.
  unfoldable pub present_surface : PresentAnswers → ℕ → SwapchainTdm S → List Event → Presented S
  present_surface a surface t events =
      let events = events ++ set_buffer surface ∷ [] in
      if a.set_layer_buffer && a.commit
      then (elim (callbacks_loop a.callbacks t) [
        | none ↦ blocks
        | some (t', more) ↦
            if a.handle_events
            then finish_present a.release surface t' (events ++ more)
            else returns error_surface_lost_khr t' (events ++ more)
      ])
      else returns error_surface_lost_khr t events

  unfoldable pub wait_sync : (sync_fd : Option ℕ) → List Event
  wait_sync none = []
  wait_sync (some fd) = fence_wait fd ∷ close_fence fd ∷ []

  unfoldable pub swapchain_tdm_queue_present_image :
      PresentAnswers → (sync_fd : Option ℕ) → SwapchainTdm S → Presented S
  swapchain_tdm_queue_present_image a sync_fd t =
      let events = wait_sync sync_fd in
      if a.enqueue
      then (elim (a.acquire) [
        | none ↦ returns error_surface_lost_khr t events
        | some surface ↦ present_surface a surface t events
      ])
      else returns error_surface_lost_khr t events

  -- The new data of a buffer that has no timeline yet. Only the key of the timeline is added; the
  -- timestamp is stored where there is a timeline.
  unfoldable pub add_timeline : S → ℕ → Option ℕ → S
  add_timeline store surface new_timeline =
      let store = u.add_user_data store surface timeline_key in
      let store = u.put_timeline store surface new_timeline in
      elim new_timeline [ none ↦ store | some timeline ↦ u.put_timestamp store surface 0 ]

  -- The fence, the data that is stored, and the calls. The first call for a buffer gives no fence.
  unfoldable pub swapchain_tdm_get_sync_fence : AcquireAnswers → S → ℕ → Option ℕ × S × List Event
  swapchain_tdm_get_sync_fence a store surface = elim (u.get_timeline store surface) [
    | some timeline ↦
        let timestamp = (u.get_timestamp store surface + 1) % 2 ^ 32 in
        (
          a.new_fence timeline timestamp,
          u.put_timestamp store surface timestamp,
          fence_create surface timeline timestamp ∷ [],
        )
    | none ↦ (none, add_timeline store surface a.new_timeline, timeline_create surface ∷ [])
  ]

  -- After the loop. A failure to dequeue returns with the mutex locked.
  unfoldable pub take_buffer : AcquireAnswers → (sync : Bool) → SwapchainTdm S → Acquired S
  take_buffer a sync t = elim (a.dequeue) [
    | none ↦ fails error_surface_lost_khr (record t { free_queue_mutex = true })
    | some surface ↦
        if sync
        then (let (fence, store, events) = swapchain_tdm_get_sync_fence a t.store surface in
            acquired surface fence (record t { store = store }) events)
        else acquired surface none t []
  ]

  -- `limit` is the timeout in nanoseconds, `sync` whether the caller wants a fence.
  unfoldable pub swapchain_tdm_acquire_next_image :
      AcquireAnswers → (limit : ℕ) → (sync : Bool) → SwapchainTdm S → Acquired S
  swapchain_tdm_acquire_next_image a limit sync t =
      if t.free_queue_mutex
      then sleeps
      else elim (wait_loop (is_timed limit) a.can_dequeue a.wakes) [
        | waiting ↦ sleeps
        | timed_out ↦ fails timeout t
        | ready ↦ take_buffer a sync t
      ]
