-- ===== src/NullDriver/Device/Queues.antt =====
-- The queue of a device of null-driver/null-driver.c.
use vulkan_wsi_tizen.Common.{
  ℕ, ◌≡◌, ◌≢◌, ◌⊎◌, inl, inr, refl, ap, ◌∙◌, Bool, true, false, ◌&&◌, ◌||◌, not, none, some, List,
  [], ◌∷◌, length, arith, ◌==◌, ==_refl, if◌then◌else◌, Bool-cases,
}
use vulkan_wsi_tizen.Enumerate.{write}
use vulkan_wsi_tizen.Enumerate.Results.{success, error_out_of_host_memory}
use vulkan_wsi_tizen.NullDriver.Heap.{
  Heap, malloc, malloc-cases, load, store, load-lt, Adds, HasFailure,
}
use vulkan_wsi_tizen.NullDriver.Objects.{
  Object, NulldrvDev, nulldrv_dev, nulldrv_queue, nulldrv_desc_ooxx, nulldrv_base_create,
  base_create_or_fail, nulldrv_queue_create,
}
use vulkan_wsi_tizen.NullDriver.Objects.Promises.{Adds-Keeps}
use vulkan_wsi_tizen.NullDriver.Device.{
  DeviceQueueCreateInfo, dev_at, create_queue, queue_round, dev_create_queues,
}
use vulkan_wsi_tizen.NullDriver.Device.States.{
  IsDevice, dev_at-live, store-IsDevice, Adds-IsDevice, same-IsDevice,
}
use mathlib.Core.Path.{subst, sym}

-- The queue at `q`, if one was asked for: it is live and belongs to the device.
abbrev pub IsQueue : (heap : Heap Object) → (dev : ℕ) → (asked : Bool) → (q : ℕ) → Type 0
IsQueue heap dev asked q =
    ((asked ≡ false) × (q ≡ 0))
    ⊎ ((asked ≡ true) × (q ≢ 0) × (load heap q ≡ some (nulldrv_queue dev)))

-- A device with its tables of descriptors and its queue.
pub record HasParts (before heap : Heap Object) (dev : ℕ) (asked : Bool) (exts : List Bool)
    : Type 0 where
  pub d : NulldrvDev
  pub q : ℕ
  pub device : IsDevice before heap dev d
  pub exts_is : d.exts ≡ exts
  pub ooxx_is : load heap d.desc_ooxx ≡ some nulldrv_desc_ooxx
  pub queues_is : d.queues ≡ q ∷ []
  pub queue_is : IsQueue heap dev asked q

-- The family of a queue that is asked for is the only one that there is.
abbrev pub is_valid : DeviceQueueCreateInfo → Bool
is_valid q = not (q.queue_count == 1) || (q.queue_family_index == 0)

abbrev pub are_valid : List DeviceQueueCreateInfo → Bool
are_valid [] = true
are_valid (q ∷ queues) = is_valid q && are_valid queues

abbrev pub asks : DeviceQueueCreateInfo → Bool
asks q = q.queue_count == 1

abbrev pub any_asks : List DeviceQueueCreateInfo → Bool
any_asks [] = false
any_asks (q ∷ queues) = asks q || any_asks queues

create_queue-fail :
    (gives : ℕ → Bool) (dev : ℕ) (heap h1 : Heap Object)
    → malloc gives (nulldrv_queue dev) heap ≡ (none, h1)
    → create_queue gives dev 0 heap ≡ some (error_out_of_host_memory, h1)
unfolding create_queue nulldrv_queue_create base_create_or_fail nulldrv_base_create
create_queue-fail gives dev heap h1 run = ground (arith, run)

create_queue-done :
    (gives : ℕ → Bool) (dev p q : ℕ) (heap h1 h2 : Heap Object) (d : NulldrvDev)
    → malloc gives (nulldrv_queue dev) heap ≡ (some p, h1)
    → dev_at h1 dev ≡ some d
    → d.queues ≡ q ∷ []
    → store h1 dev (nulldrv_dev (record d { queues = p ∷ [] })) ≡ some h2
    → create_queue gives dev 0 heap ≡ some (success, h2)
unfolding create_queue nulldrv_queue_create base_create_or_fail nulldrv_base_create write
create_queue-done gives dev p q heap h1 h2 d run found queues stored =
    ground (arith, run, found, queues, stored)

round-skip :
    (gives : ℕ → Bool) (dev : ℕ) (info : DeviceQueueCreateInfo) (heap : Heap Object)
    → asks info ≡ false
    → queue_round gives dev info heap ≡ some (success, heap)
unfolding queue_round
round-skip gives dev info heap skip = ground (arith, skip)

round-there :
    (gives : ℕ → Bool) (dev q : ℕ) (info : DeviceQueueCreateInfo) (heap : Heap Object)
    (d : NulldrvDev)
    → asks info ≡ true
    → is_valid info ≡ true
    → dev_at heap dev ≡ some d
    → d.queues ≡ q ∷ []
    → queue_round gives dev info heap
      ≡ (if q == 0 then create_queue gives dev 0 heap else some (success, heap))
unfolding queue_round
round-there gives dev q info heap d asked valid found queues =
    let family : info.queue_family_index ≡ 0 = ground arith in
    ground (arith, asked, family, found, queues)

as_asked :
    (before heap : Heap Object) (dev : ℕ) (a b : Bool) (exts : List Bool)
    → a ≡ b
    → HasParts before heap dev a exts
    → HasParts before heap dev b exts
as_asked before heap dev a b exts same s = subst (λ c. HasParts before heap dev c exts) same s

ooxx-apart :
    (heap : Heap Object) (dev p : ℕ) (d : NulldrvDev)
    → load heap dev ≡ some (nulldrv_dev d)
    → load heap p ≡ some nulldrv_desc_ooxx
    → p ≢ dev
ooxx-apart heap dev p d live tables same =
    let clash : some (nulldrv_dev d) ≡ some nulldrv_desc_ooxx =
      sym live ∙ ap (λ (r : ℕ). load heap r) (sym same) ∙ tables in
    cc clash

-- The new queue is stored.
stored-HasParts :
    (gives : ℕ → Bool) (before : Heap Object) (dev : ℕ) (heap h1 : Heap Object) (asked : Bool)
    (exts : List Bool)
    → HasParts before heap dev asked exts
    → malloc gives (nulldrv_queue dev) heap ≡ (some (length heap.blocks), h1)
    → Adds heap h1 (length heap.blocks) (nulldrv_queue dev)
    → (heap' : Heap Object) × (create_queue gives dev 0 heap ≡ some (success, heap'))
      × HasParts before heap' dev true exts
stored-HasParts gives before dev heap h1 asked exts s run adds =
    let p = length heap.blocks in
    let d' = record (s.d) { queues = p ∷ [] } in
    let s1 = Adds-IsDevice before heap h1 dev p s.d (nulldrv_queue dev) s.device adds in
    let (h2, stored, s2, others) = store-IsDevice before h1 dev s.d d' s1 in
    let lt = load-lt heap dev (nulldrv_dev s.d) s.device.live in
    let tables = (Adds-Keeps heap h1 p (nulldrv_queue dev) adds).loads s.d.desc_ooxx _ s.ooxx_is in
    let there = dev_at-live h1 dev s.d s1.live in
    (
      h2,
      create_queue-done gives dev p s.q heap h1 h2 s.d run there s.queues_is stored,
      record {
        d = d';
        q = p;
        device = s2;
        exts_is = s.exts_is;
        ooxx_is =
            others s.d.desc_ooxx nulldrv_desc_ooxx
              (ooxx-apart heap dev s.d.desc_ooxx s.d s.device.live s.ooxx_is) tables;
        queues_is = refl;
        queue_is = inr (
          refl,
          omega (arith, lt),
          others p (nulldrv_queue dev) (omega (arith, lt)) (adds.load_is p ∙ rw ==_refl refl),
        );
      },
    )

-- One round: the device has a queue after it if it had one or one is asked for.
queue_round-HasParts :
    (gives : ℕ → Bool) (before : Heap Object) (dev : ℕ) (info : DeviceQueueCreateInfo)
    (heap : Heap Object) (asked : Bool) (exts : List Bool)
    → is_valid info ≡ true
    → HasParts before heap dev asked exts
    → ((heap' : Heap Object) × (queue_round gives dev info heap ≡ some (success, heap'))
        × HasParts before heap' dev (asked || asks info) exts)
      ⊎ ((heap' : Heap Object) × (queue_round gives dev info heap
            ≡ some (error_out_of_host_memory, heap'))
          × ((d : NulldrvDev) × IsDevice before heap' dev d)
          × HasFailure gives)
queue_round-HasParts gives before dev info heap asked exts valid s = elim (Bool-cases (asks info)) [
  | inr skip ↦ inl (
    heap,
    round-skip gives dev info heap skip,
    as_asked before heap dev asked (asked || asks info) exts (ground arith) s,
  )
  | inl wanted ↦
      let there = dev_at-live heap dev s.d s.device.live in
      let round = round-there gives dev s.q info heap s.d wanted valid there s.queues_is in
      elim (Bool-cases (s.q == 0)) [
        | inr made ↦ inl (
          heap,
          round ∙ ground arith,
          as_asked before heap dev asked (asked || asks info) exts (ground (arith, s.queue_is)) s,
        )
        | inl missing ↦ elim (malloc-cases gives (nulldrv_queue dev) heap) [
          | inr (full, (h1, run, same)) ↦ inr (
            h1,
            round ∙ rw missing (create_queue-fail gives dev heap h1 run),
            (s.d, same-IsDevice before heap h1 dev s.d s.device same),
            (heap.attempts, full),
          )
          | inl (_, (h1, run, adds)) ↦
              let (h2, created, parts) =
                stored-HasParts gives before dev heap h1 asked exts s run adds in
              inl (
                h2,
                round ∙ rw missing created,
                as_asked before h2 dev true (asked || asks info) exts (ground arith) parts,
              )
        ]
      ]
]

-- All rounds.
pub dev_create_queues-HasParts :
    (gives : ℕ → Bool) (before : Heap Object) (dev : ℕ) (queues : List DeviceQueueCreateInfo)
    (heap : Heap Object) (asked : Bool) (exts : List Bool)
    → are_valid queues ≡ true
    → HasParts before heap dev asked exts
    → ((heap' : Heap Object) × (dev_create_queues gives dev queues heap ≡ some (success, heap'))
        × HasParts before heap' dev (asked || any_asks queues) exts)
      ⊎ ((heap' : Heap Object) × (dev_create_queues gives dev queues heap
            ≡ some (error_out_of_host_memory, heap'))
          × ((d : NulldrvDev) × IsDevice before heap' dev d)
          × HasFailure gives)
unfolding dev_create_queues
dev_create_queues-HasParts gives before dev [] heap asked exts valid s =
    inl (heap, refl, as_asked before heap dev asked (asked || false) exts (ground arith) s)
dev_create_queues-HasParts gives before dev (q ∷ queues) heap asked exts valid s =
    elim (queue_round-HasParts gives before dev q heap asked exts (ground arith) s) [
      | inr (heap', run, stuck, full) ↦ inr (heap', rw run refl, stuck, full)
      | inl (heap1, run, s1) ↦
          elim (dev_create_queues-HasParts gives before dev queues heap1 (asked || asks q) exts
            (ground arith) s1) [
              | inr (heap', rest, stuck, full) ↦ inr (heap', rw run rest, stuck, full)
              | inl (heap', rest, parts) ↦ inl (
                heap',
                rw run rest,
                as_asked before heap' dev _ (asked || any_asks (q ∷ queues)) exts (ground arith)
                    parts,
              )
            ]
    ]
