-- ===== src/NullDriver/Commands/Sets.antt =====
-- The descriptor sets of null-driver/null-driver.c: as many as there is memory for.
use vulkan_wsi_tizen.Common.{
  ℕ, zero, suc, ◌+◌, ◌≤◌, ◌<◌, ◌≡◌, ◌⊎◌, inl, inr, refl, ap, ◌∙◌, Bool, none, some, List, length,
  get_elem?, get_elem?_of_lt, set, length-set, get_elem?-set_self, get_elem?-set_ne, arith, ◌==◌,
  ==_refl, if◌then◌else◌, Bool-cases, ◌-◌,
}
use vulkan_wsi_tizen.Enumerate.{write}
use vulkan_wsi_tizen.Enumerate.Results.{success, error_out_of_host_memory}
use vulkan_wsi_tizen.NullDriver.Heap.{
  Heap, load, store, malloc, malloc-cases, load-store, Adds, HasFailure,
}
use vulkan_wsi_tizen.NullDriver.Objects.{
  Object, NulldrvDev, nulldrv_dev, nulldrv_desc_set, nulldrv_desc_pool, nulldrv_base_create,
}
use vulkan_wsi_tizen.NullDriver.Objects.Promises.{Keeps, Keeps-trans, Adds-Keeps, same-Keeps}
use vulkan_wsi_tizen.NullDriver.Commands.{
  desc_ooxx_of, device_of_pool, nulldrv_desc_set_create, sets_loop, allocate_descriptor_sets,
  Filled,
}
use mathlib.Core.Path.{subst}

set_create-done :
    (gives : ℕ → Bool) (dev layout p ooxx : ℕ) (heap h1 h2 : Heap Object)
    → malloc gives (nulldrv_desc_set 0 0) heap ≡ (some p, h1)
    → desc_ooxx_of h1 dev ≡ some ooxx
    → store h1 p (nulldrv_desc_set ooxx layout) ≡ some h2
    → nulldrv_desc_set_create gives dev layout heap ≡ some (success, some p, h2)
unfolding nulldrv_desc_set_create nulldrv_base_create
set_create-done gives dev layout p ooxx heap h1 h2 run found stored =
    ground (arith, run, found, stored)

set_create-fail :
    (gives : ℕ → Bool) (dev layout : ℕ) (heap h1 : Heap Object)
    → malloc gives (nulldrv_desc_set 0 0) heap ≡ (none, h1)
    → nulldrv_desc_set_create gives dev layout heap ≡ some (error_out_of_host_memory, none, h1)
unfolding nulldrv_desc_set_create nulldrv_base_create
set_create-fail gives dev layout heap h1 run = ground (arith, run)

Adds-store :
    (heap h1 h2 : Heap Object) (p : ℕ) (a b : Object)
    → Adds heap h1 p a
    → length h2.blocks ≡ length h1.blocks
    → ((q : ℕ) → load h2 q ≡ (if q == p then some b else load h1 q))
    → Adds heap h2 p b
Adds-store heap h1 h2 p a b adds size stored = record {
  fresh_is = adds.fresh_is;
  size_is = size ∙ adds.size_is;
  load_is = λ q. ground (arith, stored q, adds.load_is q);
}

ooxx-found :
    (heap : Heap Object) (dev : ℕ) (d : NulldrvDev)
    → load heap dev ≡ some (nulldrv_dev d)
    → desc_ooxx_of heap dev ≡ some d.desc_ooxx
unfolding desc_ooxx_of
ooxx-found heap dev d live = rw live refl

set_create-cases :
    (gives : ℕ → Bool) (dev layout : ℕ) (d : NulldrvDev) (heap : Heap Object)
    → load heap dev ≡ some (nulldrv_dev d)
    → ((heap' : Heap Object) × (nulldrv_desc_set_create gives dev layout heap
          ≡ some (success, some (length heap.blocks), heap'))
        × Adds heap heap' (length heap.blocks) (nulldrv_desc_set d.desc_ooxx layout))
      ⊎ ((heap' : Heap Object) × (nulldrv_desc_set_create gives dev layout heap
            ≡ some (error_out_of_host_memory, none, heap'))
          × (heap'.blocks ≡ heap.blocks)
          × HasFailure gives)
set_create-cases gives dev layout d heap live =
    elim (malloc-cases gives (nulldrv_desc_set 0 0) heap) [
      | inr (full, (h1, run, same)) ↦
          inr (h1, set_create-fail gives dev layout heap h1 run, same, (heap.attempts, full))
      | inl (_, (h1, run, adds)) ↦
          let p = length heap.blocks in
          let kept =
            (Adds-Keeps heap h1 p (nulldrv_desc_set 0 0) adds).loads dev (nulldrv_dev d) live in
          let made : load h1 p ≡ some (nulldrv_desc_set 0 0) = adds.load_is p ∙ rw ==_refl refl in
          let (h2, stored, size, content) =
            load-store h1 p (nulldrv_desc_set 0 0) (nulldrv_desc_set d.desc_ooxx layout) made in
          inl (
            h2,
            set_create-done gives dev layout p d.desc_ooxx heap h1 h2 run (ooxx-found h1 dev d kept)
                stored,
            Adds-store heap h1 h2 p (nulldrv_desc_set 0 0) (nulldrv_desc_set d.desc_ooxx layout)
                adds size content,
          )
    ]

-- The set number `j` is in the array at the handle `p`, and has its layout and the device's tables.
pub record IsDescSet (ooxx : ℕ) (set_layouts : List ℕ) (out : Filled) (j p : ℕ) : Type 0 where
  pub layout : ℕ
  pub layout_is : get_elem? set_layouts j ≡ some layout
  pub handle_is : get_elem? out.1 j ≡ some p
  pub content_is : load out.2 p ≡ some (nulldrv_desc_set ooxx layout)

-- `made` of `count` sets from index `i` on are there, the handles new, and the result
-- says whether these are all. What is live in the memory before is kept.
pub record Sets (gives : ℕ → Bool) (ooxx : ℕ) (set_layouts : List ℕ) (heap : Heap Object)
    (i count : ℕ) (out : Filled) : Type 0 where
  pub made : ℕ
  pub sets_are :
      (j : ℕ)
      → i ≤ j
      → j < i + made
      → IsDescSet ooxx set_layouts out j (length heap.blocks + (j - i))
  pub result_is :
      ((made ≡ count) × (out.0 ≡ success))
      ⊎ ((made < count) × (out.0 ≡ error_out_of_host_memory) × HasFailure gives)
  pub kept : Keeps heap out.2

sets_loop-more :
    (gives : ℕ → Bool) (dev layout n i p : ℕ) (set_layouts sets : List ℕ) (heap heap' : Heap Object)
    (out : Filled)
    → get_elem? set_layouts i ≡ some layout
    → nulldrv_desc_set_create gives dev layout heap ≡ some (success, some p, heap')
    → i < length sets
    → sets_loop gives dev set_layouts n (i + 1) (set sets i p) heap' ≡ some out
    → sets_loop gives dev set_layouts (suc n) i sets heap ≡ some out
unfolding sets_loop write
sets_loop-more gives dev layout n i p set_layouts sets heap heap' out found run lt rest =
    ground (arith, found, run, rest)

sets_loop-stop :
    (gives : ℕ → Bool) (dev layout n i : ℕ) (set_layouts sets : List ℕ) (heap heap' : Heap Object)
    → get_elem? set_layouts i ≡ some layout
    → nulldrv_desc_set_create gives dev layout heap ≡ some (error_out_of_host_memory, none, heap')
    → sets_loop gives dev set_layouts (suc n) i sets heap
      ≡ some (error_out_of_host_memory, sets, heap')
unfolding sets_loop
sets_loop-stop gives dev layout n i set_layouts sets heap heap' found run =
    ground (arith, found, run)

-- The set of round `i` and those of the later rounds.
Sets-more :
    (gives : ℕ → Bool) (ooxx : ℕ) (set_layouts : List ℕ) (heap heap' : Heap Object) (i n layout : ℕ)
    (out : Filled)
    → get_elem? set_layouts i ≡ some layout
    → Adds heap heap' (length heap.blocks) (nulldrv_desc_set ooxx layout)
    → get_elem? out.1 i ≡ some (length heap.blocks)
    → Sets gives ooxx set_layouts heap' (i + 1) n out
    → Sets gives ooxx set_layouts heap i (suc n) out
Sets-more gives ooxx set_layouts heap heap' i n layout out found adds stored rest = record {
  made = rest.made + 1;
  sets_are = λ j le lt. elim (Bool-cases (j == i)) [
    | inl same ↦
        let e : i ≡ j = ground arith in
        let here : length heap.blocks ≡ length heap.blocks + (j - i) = ground arith in
        let content =
          rest.kept.loads (length heap.blocks) (nulldrv_desc_set ooxx layout)
            (adds.load_is (length heap.blocks) ∙ rw ==_refl refl) in
        record {
          layout = layout;
          layout_is = rw e at found;
          handle_is = rw e at stored ∙ ap some here;
          content_is = subst (λ p. load out.2 p ≡ some (nulldrv_desc_set ooxx layout)) here content;
        }
    | inr other ↦
        let at : length heap'.blocks + (j - (i + 1)) ≡ length heap.blocks + (j - i) =
          ground (arith, adds.size_is) in
        subst (λ p. IsDescSet ooxx set_layouts out j p) at
          (rest.sets_are j (ground arith) (omega arith))
  ];
  result_is = ground (arith, rest.result_is);
  kept = Keeps-trans heap heap' out.2 (Adds-Keeps heap heap' _ _ adds) rest.kept;
}

sets_loop-Sets :
    (gives : ℕ → Bool) (dev : ℕ) (d : NulldrvDev) (set_layouts : List ℕ) (n i : ℕ) (sets : List ℕ)
    (heap : Heap Object)
    → load heap dev ≡ some (nulldrv_dev d)
    → i + n ≤ length set_layouts
    → i + n ≤ length sets
    → (out : Filled) × (sets_loop gives dev set_layouts n i sets heap ≡ some out)
      × Sets gives d.desc_ooxx set_layouts heap i n out
      × ((j : ℕ) → j < i → get_elem? out.1 j ≡ get_elem? sets j)
unfolding sets_loop
sets_loop-Sets gives dev d set_layouts zero i sets heap live layouts room = (
  (success, sets, heap),
  refl,
  record {
    made = 0;
    sets_are = λ j le lt. absurd (omega (arith, le, lt));
    result_is = inl (refl, refl);
    kept = record { loads = λ q a found. found; grows = omega arith };
  },
  λ j lt. refl,
)
sets_loop-Sets gives dev d set_layouts (suc n) i sets heap live layouts room =
    let (layout, found) = get_elem?_of_lt set_layouts i (omega arith) in
    elim (set_create-cases gives dev layout d heap live) [
      | inr (heap', run, same, full) ↦ (
        (error_out_of_host_memory, sets, heap'),
        sets_loop-stop gives dev layout n i set_layouts sets heap heap' found run,
        record {
          made = 0;
          sets_are = λ j le lt. absurd (omega (arith, le, lt));
          result_is = inr (omega arith, refl, full);
          kept = same-Keeps heap heap' same;
        },
        λ j lt. refl,
      )
      | inl (heap', run, adds) ↦
          let p = length heap.blocks in
          let still = (Adds-Keeps heap heap' p _ adds).loads dev (nulldrv_dev d) live in
          let (out, rest, later, front) =
            sets_loop-Sets gives dev d set_layouts n (i + 1) (set sets i p) heap' still
              (omega arith) (rw length-set (omega arith)) in
          let stored = front i (omega arith) ∙ get_elem?-set_self sets i p (omega arith) in
          (
            out,
            sets_loop-more gives dev layout n i p set_layouts sets heap heap' out found run
                (omega arith) rest,
            Sets-more gives d.desc_ooxx set_layouts heap heap' i n layout out found adds stored
                later,
            λ j lt. front j (omega arith) ∙ get_elem?-set_ne sets i j p (omega arith),
          )
    ]

-- A call of `vkAllocateDescriptorSets` on a live pool of a live device, with arrays that are large
-- enough: it returns, and its result says whether all sets were made or a call of `malloc` has
-- failed. The sets made, all of them or the first ones, have new handles in the array, and each has
-- its layout and the tables of the device. They are not freed when the call fails.
pub allocate_descriptor_sets-Sets :
    (gives : ℕ → Bool) (pool dev count : ℕ) (d : NulldrvDev) (set_layouts sets : List ℕ)
    (heap : Heap Object)
    → load heap pool ≡ some (nulldrv_desc_pool dev)
    → load heap dev ≡ some (nulldrv_dev d)
    → count ≤ length set_layouts
    → count ≤ length sets
    → (out : Filled) × (allocate_descriptor_sets gives pool count set_layouts sets heap ≡ some out)
      × Sets gives d.desc_ooxx set_layouts heap 0 count out
unfolding allocate_descriptor_sets device_of_pool
allocate_descriptor_sets-Sets gives pool dev count d set_layouts sets heap of_pool live layouts
      room =
    let (out, run, made, _) =
      sets_loop-Sets gives dev d set_layouts count 0 sets heap live (omega arith) (omega arith) in
    (out, rw of_pool run, made)
