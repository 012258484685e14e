-- ===== src/NullDriver/Device/Creation.antt =====
-- `vkCreateDevice` and `vkGetDeviceQueue` of null-driver/null-driver.c.
use vulkan_wsi_tizen.Common.{
  ℕ, ◌≡◌, ◌⊎◌, inl, inr, refl, ◌∙◌, Bool, true, false, none, some, List, [], ◌∷◌, length, arith,
  ==_refl, Bool-cases,
}
use vulkan_wsi_tizen.Enumerate.Results.{
  success, error_out_of_host_memory, error_extension_not_present,
}
use vulkan_wsi_tizen.NullDriver.Heap.{Heap, malloc, malloc-cases, HasFailure}
use vulkan_wsi_tizen.NullDriver.Objects.{
  Object, NulldrvDev, nulldrv_dev, nulldrv_base_create, Created,
}
use vulkan_wsi_tizen.NullDriver.Objects.Promises.{Keeps, Adds-Keeps, same-Keeps}
use vulkan_wsi_tizen.NullDriver.Device.{
  DeviceCreateInfo, enable_loop, finish_device, nulldrv_dev_create, create_device, get_device_queue,
}
use vulkan_wsi_tizen.NullDriver.Device.States.{
  IsDevice, dev_at-live, are_known, first_is_known, enable_loop-IsDevice, ooxx_create-IsDevice,
}
use vulkan_wsi_tizen.NullDriver.Device.Queues.{
  HasParts, are_valid, any_asks, dev_create_queues-HasParts,
}

-- The three ends of a call. A failed call stores no handle, but its device is still live.
pub record Made (info : DeviceCreateInfo) (before : Heap Object) (out : Created) : Type 0 where
  pub known : are_known (info.enabled_extension_names) ≡ true
  pub result_is : out.0 ≡ success
  pub dev : ℕ
  pub handle_is : out.1 ≡ some dev
  pub parts :
      HasParts before out.2 dev
        (any_asks info.queue_create_infos)
        (first_is_known info.enabled_extension_names ∷ [])
  pub queue_is : (node index : ℕ) → get_device_queue dev node index out.2 ≡ some parts.q

pub record Leaves (before : Heap Object) (out : Created) : Type 0 where
  pub nothing_is : out.1 ≡ none
  pub dev : ℕ
  pub d : NulldrvDev
  pub device : IsDevice before out.2 dev d

abbrev pub Ends : (gives : ℕ → Bool) → DeviceCreateInfo → Heap Object → Created → Type 0
Ends gives info before out =
    Made info before out
    ⊎ ((are_known info.enabled_extension_names ≡ false)
        × (out.0 ≡ error_extension_not_present)
        × Leaves before out)
    ⊎ ((are_known info.enabled_extension_names ≡ true)
        × (out.0 ≡ error_out_of_host_memory)
        × Leaves before out
        × HasFailure gives)
    ⊎ ((out.0 ≡ error_out_of_host_memory)
        × (out.1 ≡ none)
        × (out.2.blocks ≡ before.blocks)
        × HasFailure gives)

get_queue-parts :
    (before heap : Heap Object) (dev : ℕ) (asked : Bool) (exts : List Bool)
    (s : HasParts before heap dev asked exts)
    → (node index : ℕ) → get_device_queue dev node index heap ≡ some s.q
unfolding get_device_queue
get_queue-parts before heap dev asked exts s node index =
    let there = dev_at-live heap dev s.d s.device.live in ground (arith, there, s.queues_is)

-- What follows the loop over the names, when all are known.
finish_device-Ends :
    (gives : ℕ → Bool) (info : DeviceCreateInfo) (before : Heap Object) (dev : ℕ)
    (heap : Heap Object) (d : NulldrvDev)
    → are_known info.enabled_extension_names ≡ true
    → are_valid info.queue_create_infos ≡ true
    → IsDevice before heap dev d
    → d.exts ≡ first_is_known info.enabled_extension_names ∷ []
    → d.queues ≡ 0 ∷ []
    → (out : Created) × (finish_device gives dev info.queue_create_infos heap ≡ some out)
      × Ends gives info before out
unfolding finish_device
finish_device-Ends gives info before dev heap d known valid s exts queues =
    elim (ooxx_create-IsDevice gives before dev heap d s) [
      | inr (h1, run, s1, full) ↦ (
        (error_out_of_host_memory, none, h1),
        rw run refl,
        inr (
            inr (
              inl
                (known, refl, record { nothing_is = refl; dev = dev; d = d; device = s1 }, full))),
      )
      | inl (h1, p, run, s1, tables) ↦
          let parts : HasParts before h1 dev false
              (first_is_known info.enabled_extension_names ∷ []) =
            record {
              d = record d { desc_ooxx = p };
              q = 0;
              device = s1;
              exts_is = exts;
              ooxx_is = tables;
              queues_is = queues;
              queue_is = inl (refl, refl);
            } in
          elim (dev_create_queues-HasParts gives before dev info.queue_create_infos h1 false _ valid
            parts) [
              | inr (h2, rest, (d2, s2), full) ↦ (
                (error_out_of_host_memory, none, h2),
                rw (run, rest) refl,
                inr (
                    inr (
                      inl (
                        known,
                        refl,
                        record { nothing_is = refl; dev = dev; d = d2; device = s2 },
                        full,
                      ))),
              )
              | inl (h2, rest, s2) ↦ (
                (success, some dev, h2),
                rw (run, rest) refl,
                inl (record {
                  known = known;
                  result_is = refl;
                  dev = dev;
                  handle_is = refl;
                  parts = s2;
                  queue_is = get_queue-parts before h2 dev _ _ s2;
                }),
              )
            ]
    ]

abbrev blank_dev : NulldrvDev
blank_dev = record { exts = false ∷ []; desc_ooxx = 0; queues = 0 ∷ [] }

dev_create-fail :
    (gives : ℕ → Bool) (info : DeviceCreateInfo) (heap h1 : Heap Object)
    → malloc gives (nulldrv_dev blank_dev) heap ≡ (none, h1)
    → create_device gives info heap ≡ some (error_out_of_host_memory, none, h1)
unfolding create_device nulldrv_dev_create nulldrv_base_create
dev_create-fail gives info heap h1 run = ground (arith, run)

dev_create-unknown :
    (gives : ℕ → Bool) (info : DeviceCreateInfo) (dev : ℕ) (heap h1 h2 : Heap Object)
    → malloc gives (nulldrv_dev blank_dev) heap ≡ (some dev, h1)
    → enable_loop (info.enabled_extension_names) dev h1 ≡ some (false, h2)
    → create_device gives info heap ≡ some (error_extension_not_present, none, h2)
unfolding create_device nulldrv_dev_create nulldrv_base_create
dev_create-unknown gives info dev heap h1 h2 run named = ground (arith, run, named)

dev_create-known :
    (gives : ℕ → Bool) (info : DeviceCreateInfo) (dev : ℕ) (heap h1 h2 : Heap Object)
    (out : Created)
    → malloc gives (nulldrv_dev blank_dev) heap ≡ (some dev, h1)
    → enable_loop (info.enabled_extension_names) dev h1 ≡ some (true, h2)
    → finish_device gives dev (info.queue_create_infos) h2 ≡ some out
    → create_device gives info heap ≡ some out
unfolding create_device nulldrv_dev_create nulldrv_base_create
dev_create-known gives info dev heap h1 h2 out run named rest = ground (arith, run, named, rest)

-- `vkCreateDevice` for queues of the one family that there is: it returns, and there are four ends.
-- All names are that of the swapchain extension, and there is a new live device with its tables,
-- the flag of the extension, and a queue of its own if one is asked for, which is what
-- `vkGetDeviceQueue` gives for any indices, or `NULL`. A name is not known, and the result says so.
-- A call of `malloc` fails for the tables or the queue. Or it fails for the device, and no block is
-- changed. In the second and the third case no handle is stored, but a new device stays live. What
-- was live before is kept.
pub create_device-Ends :
    (gives : ℕ → Bool) (info : DeviceCreateInfo) (heap : Heap Object)
    → are_valid (info.queue_create_infos) ≡ true
    → (out : Created) × (create_device gives info heap ≡ some out)
      × Ends gives info heap out
      × Keeps heap out.2
create_device-Ends gives info heap valid = elim (malloc-cases gives (nulldrv_dev blank_dev) heap) [
  | inr (full, (h1, run, same)) ↦ (
    (error_out_of_host_memory, none, h1),
    dev_create-fail gives info heap h1 run,
    inr (inr (inr (refl, refl, same, (heap.attempts, full)))),
    same-Keeps heap h1 same,
  )
  | inl (_, (h1, run, adds)) ↦
      let dev = length heap.blocks in
      let names = info.enabled_extension_names in
      let s1 : IsDevice heap h1 dev blank_dev = record {
        live = adds.load_is dev ∙ rw ==_refl refl;
        new = omega arith;
        kept = Adds-Keeps heap h1 dev (nulldrv_dev blank_dev) adds;
      } in
      let (h2, named, s2) = enable_loop-IsDevice heap names dev false h1 blank_dev s1 refl in
      elim (Bool-cases (are_known names)) [
        | inr unknown ↦ (
          (error_extension_not_present, none, h2),
          dev_create-unknown gives info dev heap h1 h2 run (named ∙ rw unknown refl),
          inr (inl (unknown, refl, record { nothing_is = refl; dev = dev; d = _; device = s2 })),
          s2.kept,
        )
        | inl known ↦
            let (out, rest, ends) =
              finish_device-Ends gives info heap dev h2 _ known valid s2 refl refl in
            (
              out,
              dev_create-known gives info dev heap h1 h2 out run (named ∙ rw known refl) rest,
              ends,
              ends-Keeps gives info heap out ends,
            )
      ]
]
  where
    ends-Keeps :
        (gives : ℕ → Bool) (info : DeviceCreateInfo) (before : Heap Object) (out : Created)
        → Ends gives info before out
        → Keeps before out.2
    ends-Keeps gives info before out (inl made) = made.parts.device.kept
    ends-Keeps gives info before out (inr (inl (_, _, l))) = l.device.kept
    ends-Keeps gives info before out (inr (inr (inl (_, _, l, _)))) = l.device.kept
    ends-Keeps gives info before out (inr (inr (inr (_, _, same, _)))) =
        same-Keeps before out.2 same
