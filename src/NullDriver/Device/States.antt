-- ===== src/NullDriver/Device/States.antt =====
-- A device of null-driver/null-driver.c while it is being set up.
use vulkan_wsi_tizen.Common.{
  ℕ, ◌≤◌, ◌≡◌, ◌≢◌, ◌⊎◌, inl, inr, refl, ◌∙◌, Bool, true, false, ◌&&◌, ◌||◌, none, some, List, [],
  ◌∷◌, length, arith, ◌==◌, if◌then◌else◌, Bool-cases, ==_refl,
}
use Prim.Native.String.{String}
use text.Mathlib.Text.{◌==◌ as str_eq}
use vulkan_wsi_tizen.Enumerate.{write}
use vulkan_wsi_tizen.Enumerate.Results.{success, error_out_of_host_memory}
use vulkan_wsi_tizen.NullDriver.Heap.{
  Heap, malloc, malloc-cases, load, store, load-store, load-lt, Adds, HasFailure,
}
use vulkan_wsi_tizen.NullDriver.Objects.{Object, NulldrvDev, nulldrv_dev, nulldrv_desc_ooxx}
use vulkan_wsi_tizen.NullDriver.Objects.Promises.{Keeps, Keeps-trans, Adds-Keeps, same-Keeps}
use vulkan_wsi_tizen.NullDriver.Device.{
  nulldrv_gpu_lookup_extension, lookup_loop, dev_at, set_ext, enable_loop, nulldrv_desc_ooxx_create,
}
use mathlib.Core.Path.{subst}

-- The device `d` is live at `dev`, an address that is new, and what was live before is kept.
pub record IsDevice (before heap : Heap Object) (dev : ℕ) (d : NulldrvDev) : Type 0 where
  pub live : load heap dev ≡ some (nulldrv_dev d)
  pub new : length before.blocks ≤ dev
  pub kept : Keeps before heap

-- What is live at another address stays.
abbrev pub KeepsOthers : (heap heap' : Heap Object) → ℕ → Type 0
KeepsOthers heap heap' dev =
    (q : ℕ) (a : Object) → q ≢ dev → load heap q ≡ some a → load heap' q ≡ some a

pub dev_at-live :
    (heap : Heap Object) (dev : ℕ) (d : NulldrvDev)
    → load heap dev ≡ some (nulldrv_dev d)
    → dev_at heap dev ≡ some d
unfolding dev_at
dev_at-live heap dev d live = rw live refl

-- A field of the device is written.
pub store-IsDevice :
    (before heap : Heap Object) (dev : ℕ) (d d' : NulldrvDev)
    → IsDevice before heap dev d
    → (heap' : Heap Object) × (store heap dev (nulldrv_dev d') ≡ some heap')
      × IsDevice before heap' dev d'
      × KeepsOthers heap heap' dev
store-IsDevice before heap dev d d' s =
    let (heap', run, size, content) = load-store heap dev (nulldrv_dev d) (nulldrv_dev d') s.live in
    (
      heap',
      run,
      record {
        live = content dev ∙ ground arith;
        new = s.new;
        kept = record {
          loads = λ q a found.
              let lt = load-lt before q a found in
              let other : (q == dev) ≡ false = ground (arith, s.new) in
              content q ∙ rw other (s.kept.loads q a found);
          grows = omega (arith, size, s.kept.grows);
        };
      },
      λ q a other found. content q ∙ ground arith,
    )

-- An object is added.
pub Adds-IsDevice :
    (before heap heap' : Heap Object) (dev p : ℕ) (d : NulldrvDev) (a : Object)
    → IsDevice before heap dev d
    → Adds heap heap' p a
    → IsDevice before heap' dev d
Adds-IsDevice before heap heap' dev p d a s adds =
    let more = Adds-Keeps heap heap' p a adds in
    record {
      live = more.loads dev (nulldrv_dev d) s.live;
      new = s.new;
      kept = Keeps-trans before heap heap' s.kept more;
    }

pub same-IsDevice :
    (before heap heap' : Heap Object) (dev : ℕ) (d : NulldrvDev)
    → IsDevice before heap dev d
    → heap'.blocks ≡ heap.blocks
    → IsDevice before heap' dev d
same-IsDevice before heap heap' dev d s same =
    let all = same-Keeps heap heap' same in
    record {
      live = all.loads dev (nulldrv_dev d) s.live;
      new = s.new;
      kept = Keeps-trans before heap heap' s.kept all;
    }

-- The one extension that the driver knows.
abbrev pub is_known : String → Bool
is_known name = str_eq "VK_KHR_swapchain" name

abbrev pub are_known : List String → Bool
are_known [] = true
are_known (name ∷ names) = is_known name && are_known names

abbrev pub first_is_known : List String → Bool
first_is_known [] = false
first_is_known (name ∷ names) = is_known name

lookup_is : (name : String) → nulldrv_gpu_lookup_extension name ≡ (if is_known name then 0 else 1)
unfolding nulldrv_gpu_lookup_extension lookup_loop
lookup_is name = ground arith

set_ext-live :
    (dev : ℕ) (b : Bool) (heap heap' : Heap Object) (d : NulldrvDev)
    → dev_at heap dev ≡ some d
    → d.exts ≡ b ∷ []
    → store heap dev (nulldrv_dev (record d { exts = true ∷ [] })) ≡ some heap'
    → set_ext dev 0 heap ≡ some heap'
unfolding set_ext write
set_ext-live dev b heap heap' d found exts run = ground (arith, found, exts, run)

enable_loop-unknown :
    (name : String) (names : List String) (dev : ℕ) (heap : Heap Object)
    → is_known name ≡ false
    → enable_loop (name ∷ names) dev heap ≡ some (false, heap)
unfolding enable_loop
enable_loop-unknown name names dev heap unknown = ground (arith, lookup_is name)

enable_loop-known :
    (name : String) (names : List String) (dev : ℕ) (heap heap1 : Heap Object)
    (r : Bool × Heap Object)
    → is_known name ≡ true
    → set_ext dev 0 heap ≡ some heap1
    → enable_loop names dev heap1 ≡ some r
    → enable_loop (name ∷ names) dev heap ≡ some r
unfolding enable_loop
enable_loop-known name names dev heap heap1 r known run rest =
    ground (arith, lookup_is name, run, rest)

with_exts :
    (before heap : Heap Object) (dev : ℕ) (d : NulldrvDev) (bs : List Bool)
    → IsDevice before heap dev d
    → d.exts ≡ bs
    → IsDevice before heap dev (record d { exts = bs })
with_exts before heap dev d bs s e =
    subst (λ xs. IsDevice before heap dev (record d { exts = xs })) e s

-- The loop over the names ends with the answer whether all are known, and the flag of the extension.
pub enable_loop-IsDevice :
    (before : Heap Object) (names : List String) (dev : ℕ) (b : Bool) (heap : Heap Object)
    (d : NulldrvDev)
    → IsDevice before heap dev d
    → d.exts ≡ b ∷ []
    → (heap' : Heap Object) × (enable_loop names dev heap ≡ some (are_known names, heap'))
      × IsDevice before heap' dev (record d { exts = (b || first_is_known names) ∷ [] })
unfolding enable_loop
enable_loop-IsDevice before [] dev b heap d s exts =
    (heap, refl, with_exts before heap dev d ((b || false) ∷ []) s (exts ∙ ground arith))
enable_loop-IsDevice before (name ∷ names) dev b heap d s exts = elim (Bool-cases (is_known name)) [
  | inr unknown ↦ (
    heap,
    enable_loop-unknown name names dev heap unknown ∙ ground arith,
    with_exts before heap dev d ((b || is_known name) ∷ []) s (exts ∙ ground arith),
  )
  | inl known ↦
      let found = dev_at-live heap dev d s.live in
      let (heap1, run, s1, _) =
        store-IsDevice before heap dev d (record d { exts = true ∷ [] }) s in
      let (heap', rest, s') =
        enable_loop-IsDevice before names dev true heap1 (record d { exts = true ∷ [] }) s1 refl in
      let written = set_ext-live dev b heap heap1 d found exts run in
      let all : are_known names ≡ are_known (name ∷ names) = ground arith in
      let one : true ∷ [] ≡ (b || is_known name) ∷ [] = ground arith in
      (
        heap',
        enable_loop-known name names dev heap heap1 (are_known names, heap') known written rest
            ∙ ground arith,
        subst (λ xs. IsDevice before heap' dev (record d { exts = xs })) one s',
      )
]

ooxx_create-fail :
    (gives : ℕ → Bool) (dev : ℕ) (heap h1 : Heap Object)
    → malloc gives nulldrv_desc_ooxx heap ≡ (none, h1)
    → nulldrv_desc_ooxx_create gives dev heap ≡ some (error_out_of_host_memory, h1)
unfolding nulldrv_desc_ooxx_create
ooxx_create-fail gives dev heap h1 run = ground (arith, run)

ooxx_create-done :
    (gives : ℕ → Bool) (dev p : ℕ) (heap h1 h2 : Heap Object) (d : NulldrvDev)
    → malloc gives nulldrv_desc_ooxx heap ≡ (some p, h1)
    → dev_at h1 dev ≡ some d
    → store h1 dev (nulldrv_dev (record d { desc_ooxx = p })) ≡ some h2
    → nulldrv_desc_ooxx_create gives dev heap ≡ some (success, h2)
unfolding nulldrv_desc_ooxx_create
ooxx_create-done gives dev p heap h1 h2 d run found stored = ground (arith, run, found, stored)

-- The tables of descriptors are made and live, or there is no memory for them.
pub ooxx_create-IsDevice :
    (gives : ℕ → Bool) (before : Heap Object) (dev : ℕ) (heap : Heap Object) (d : NulldrvDev)
    → IsDevice before heap dev d
    → ((heap' : Heap Object) × (p : ℕ) × (nulldrv_desc_ooxx_create gives dev heap
          ≡ some (success, heap'))
        × IsDevice before heap' dev (record d { desc_ooxx = p })
        × (load heap' p ≡ some nulldrv_desc_ooxx))
      ⊎ ((heap' : Heap Object) × (nulldrv_desc_ooxx_create gives dev heap
            ≡ some (error_out_of_host_memory, heap'))
          × IsDevice before heap' dev d
          × HasFailure gives)
ooxx_create-IsDevice gives before dev heap d s = elim (malloc-cases gives nulldrv_desc_ooxx heap) [
  | inr (full, (h1, run, same)) ↦ inr (
    h1,
    ooxx_create-fail gives dev heap h1 run,
    same-IsDevice before heap h1 dev d s same,
    (heap.attempts, full),
  )
  | inl (_, (h1, run, adds)) ↦
      let p = length heap.blocks in
      let s1 = Adds-IsDevice before heap h1 dev p d nulldrv_desc_ooxx s adds in
      let (h2, stored, s2, others) =
        store-IsDevice before h1 dev d (record d { desc_ooxx = p }) s1 in
      let lt = load-lt heap dev (nulldrv_dev d) s.live in
      inl (
        h2,
        p,
        ooxx_create-done gives dev p heap h1 h2 d run (dev_at-live h1 dev d s1.live) stored,
        s2,
        others p nulldrv_desc_ooxx (omega (arith, lt)) (adds.load_is p ∙ rw ==_refl refl),
      )
]
