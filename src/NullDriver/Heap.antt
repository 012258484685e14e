-- ===== src/NullDriver/Heap.antt =====
-- The memory that null-driver/null-driver.c allocates its objects in. The address of a block is its
-- number, which only tells it from the others: the code stores addresses, follows them and compares
-- them with `NULL`, so that whatever addresses `malloc` gives to the blocks, their order stands for
-- nothing. The block at `NULL`, which is 0, is never used. A freed block is not used again.
use vulkan_wsi_tizen.Common.{
  ℕ, zero, suc, ◌+◌, ◌<◌, ◌≡◌, ◌≢◌, refl, Bool, true, false, Option, none, some, List, [], ◌∷◌,
  ◌++◌, length, get_elem?, set, length-append, length-set, get_elem?-set_self, get_elem?-set_ne,
  lt_of_some, arith, ◌==◌, ==_iff, if◌then◌else◌, ◌>>=◌, ◌⊎◌, inl, inr, Bool-cases, >>=-eq-some,
}

-- `attempts` counts the calls of `malloc`; an element that is `none` is no live block.
pub record Heap (A : Type 0) : Type 0 where
  pub attempts : ℕ
  pub blocks : List (Option A)

-- That a call of `malloc` fails.
abbrev pub HasFailure : (gives : ℕ → Bool) → Type 0
HasFailure gives = (n : ℕ) × (gives n ≡ false)

module _ {A : Type 0} where
  -- `gives` says which calls of `malloc` succeed; the block gets its content at once.
  -- What `malloc` promises is that nothing is live at the address it gives.
  unfoldable pub malloc : (gives : ℕ → Bool) → A → Heap A → Option ℕ × Heap A
  malloc gives a heap =
      if gives heap.attempts
      then (
        some (length heap.blocks),
        record { attempts = heap.attempts + 1; blocks = heap.blocks ++ some a ∷ [] },
      )
      else (none, record heap { attempts = heap.attempts + 1 })

  -- The content of a live block.
  unfoldable pub load : Heap A → ℕ → Option A
  load heap p = get_elem? heap.blocks p >>= λ block. block

  -- A write to a live block.
  unfoldable pub store : Heap A → ℕ → A → Option (Heap A)
  store heap p a = load heap p >>= λ _. some (record heap { blocks = set heap.blocks p (some a) })

  -- `free(NULL)` does nothing; a block that is not live is a fault.
  unfoldable pub free : Heap A → ℕ → Option (Heap A)
  free heap p =
      if p == 0
      then some heap
      else (load heap p >>= λ _. some (record heap { blocks = set heap.blocks p none }))

  -- Nothing is live at `NULL`, which is an address all the same.
  pub record IsHeap (heap : Heap A) : Type 0 where
    pub null_is : load heap 0 ≡ none
    pub has_null : 0 < length heap.blocks

  -- What a call has allocated: the block at `p`, if there is one.
  pub record Adds (heap heap' : Heap A) (p : ℕ) (a : A) : Type 0 where
    pub fresh_is : p ≡ length heap.blocks
    pub size_is : length heap'.blocks ≡ length heap.blocks + 1
    pub load_is : (q : ℕ) → load heap' q ≡ (if q == p then some a else load heap q)

  get_elem?-append_one :
      (xs : List A) (a : A) (q : ℕ)
      → get_elem? (xs ++ a ∷ []) q ≡ (if q == length xs then some a else get_elem? xs q)
  get_elem?-append_one [] a zero = refl
  get_elem?-append_one [] a (suc q) = ground arith
  get_elem?-append_one (x ∷ xs) a zero = ground arith
  get_elem?-append_one (x ∷ xs) a (suc q) = ground (arith, get_elem?-append_one xs a q)

module _ {A : Type 0} where
  pub load-lt : (heap : Heap A) (p : ℕ) (a : A) → load heap p ≡ some a → p < length heap.blocks
  unfolding load
  load-lt heap p a found =
      let (block, there, same) = >>=-eq-some (get_elem? heap.blocks p) (λ block. block) found in
      lt_of_some heap.blocks p block there

  -- Every call of `malloc` gives a new block, or none and leaves the blocks alone.
  pub malloc-cases :
      (gives : ℕ → Bool) (a : A) (heap : Heap A)
      → ((gives heap.attempts ≡ true)
          × ((heap' : Heap A) × (malloc gives a heap ≡ (some (length heap.blocks), heap'))
              × Adds heap heap' (length heap.blocks) a))
        ⊎ ((gives heap.attempts ≡ false)
            × ((heap' : Heap A) × (malloc gives a heap ≡ (none, heap'))
                × (heap'.blocks ≡ heap.blocks)))
  unfolding malloc load
  malloc-cases gives a heap = elim (Bool-cases (gives heap.attempts)) [
    | inl given ↦ inl (
      given,
      (
        record { attempts = heap.attempts + 1; blocks = heap.blocks ++ some a ∷ [] },
        ground arith,
        record {
          fresh_is = refl;
          size_is = length-append heap.blocks (some a ∷ []);
          load_is = λ q. ground (arith, get_elem?-append_one heap.blocks (some a) q);
        },
      ),
    )
    | inr full ↦ inr (full, (record heap { attempts = heap.attempts + 1 }, ground arith, refl))
  ]

  pub Adds-IsHeap :
      (heap heap' : Heap A) (p : ℕ) (a : A) → IsHeap heap → Adds heap heap' p a → IsHeap heap'
  Adds-IsHeap heap heap' p a ok adds = record {
    null_is = ground (arith, adds.load_is 0, adds.fresh_is, ok.has_null, ok.null_is);
    has_null = omega (arith, adds.size_is);
  }

  pub load-store :
      (heap : Heap A) (p : ℕ) (old a : A)
      → load heap p ≡ some old
      → (heap' : Heap A) × (store heap p a ≡ some heap')
        × (length heap'.blocks ≡ length heap.blocks)
        × ((q : ℕ) → load heap' q ≡ (if q == p then some a else load heap q))
  unfolding store load
  load-store heap p old a live =
      let lt = load-lt heap p old live in
      (
        record heap { blocks = set heap.blocks p (some a) },
        rw live refl,
        length-set heap.blocks p (some a),
        λ q. elim (Bool-cases (q == p)) [
          | inl same ↦ ground (arith, ==_iff q p, get_elem?-set_self heap.blocks p (some a) lt)
          | inr other ↦ ground (arith, get_elem?-set_ne heap.blocks p q (some a) (ground arith))
        ],
      )

  pub load-free :
      (heap : Heap A) (p : ℕ) (old : A)
      → p ≢ 0
      → load heap p ≡ some old
      → (heap' : Heap A) × (free heap p ≡ some heap')
        × (length heap'.blocks ≡ length heap.blocks)
        × ((q : ℕ) → load heap' q ≡ (if q == p then none else load heap q))
  unfolding free load
  load-free heap p old there live =
      let lt = load-lt heap p old live in
      (
        record heap { blocks = set heap.blocks p none },
        ground arith,
        length-set heap.blocks p none,
        λ q. elim (Bool-cases (q == p)) [
          | inl same ↦ ground (arith, ==_iff q p, get_elem?-set_self heap.blocks p none lt)
          | inr other ↦ ground (arith, get_elem?-set_ne heap.blocks p q none (ground arith))
        ],
      )

  pub load-same :
      (heap heap' : Heap A) → heap'.blocks ≡ heap.blocks → (q : ℕ) → load heap' q ≡ load heap q
  unfolding load
  load-same heap heap' same q = rw same refl
