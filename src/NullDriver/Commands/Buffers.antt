-- ===== src/NullDriver/Commands/Buffers.antt =====
-- The command buffers of null-driver/null-driver.c: all that a call asks for, or none.
use vulkan_wsi_tizen.Common.{
  ℕ, zero, suc, ◌+◌, ◌≤◌, ◌<◌, ◌≡◌, ◌⊎◌, inl, inr, refl, ap, ◌∙◌, Bool, ◌&&◌, none, some, List,
  length, get_elem?, set, length-set, get_elem?-set_self, get_elem?-set_ne, arith, leb, ltb, ◌==◌,
  if◌then◌else◌, Bool-cases, Option-cases,
}
use vulkan_wsi_tizen.Enumerate.{write}
use vulkan_wsi_tizen.Enumerate.Results.{success, error_out_of_host_memory}
use vulkan_wsi_tizen.NullDriver.Heap.{
  Heap, load, free, malloc, malloc-cases, load-free, load-lt, IsHeap, Adds, load-same, HasFailure,
}
use vulkan_wsi_tizen.NullDriver.Objects.{Object, nulldrv_cmd, nulldrv_base_create}
use vulkan_wsi_tizen.NullDriver.Commands.{
  free_loop, cmd_loop, nulldrv_cmd_create, allocate_command_buffers, free_command_buffers, Filled,
}

-- Whether an address is one of `n` from `b` on.
abbrev pub is_within : (b n q : ℕ) → Bool
is_within b n q = leb b q && ltb q (b + n)

-- `n` command buffers from `b` on, and else what is in the other memory, which ends below `b`.
pub record Buffers (before heap : Heap Object) (b n : ℕ) : Type 0 where
  pub content_is :
      (q : ℕ) → load heap q ≡ (if is_within b n q then some nulldrv_cmd else load before q)
  pub before_is : (q : ℕ) → b ≤ q → load before q ≡ none
  pub not_null : 0 < b

-- The first of them is freed.
Buffers-free :
    (before heap heap1 : Heap Object) (b n : ℕ)
    → Buffers before heap b (suc n)
    → ((q : ℕ) → load heap1 q ≡ (if q == b then none else load heap q))
    → Buffers before heap1 (b + 1) n
Buffers-free before heap heap1 b n ok freed = record {
  content_is = λ q. elim (Bool-cases (q == b)) [
    | inl same ↦ ground (arith, freed q, ok.before_is q)
    | inr other ↦ ground (arith, freed q, ok.content_is q)
  ];
  before_is = λ q le. ok.before_is q (omega arith);
  not_null = omega arith;
}

free_loop-step :
    (n j p : ℕ) (array : List ℕ) (heap heap1 heap' : Heap Object)
    → get_elem? array j ≡ some p
    → free heap p ≡ some heap1
    → free_loop n (j + 1) array heap1 ≡ some heap'
    → free_loop (suc n) j array heap ≡ some heap'
unfolding free_loop
free_loop-step n j p array heap heap1 heap' there run rest = rw (there, run) rest

-- Freeing them, in order, ends in what was before.
free_loop-Buffers :
    (before : Heap Object) (array : List ℕ) (n j b : ℕ) (heap : Heap Object)
    → Buffers before heap (b + j) n
    → ((k : ℕ) → k < j + n → get_elem? array k ≡ some (b + k))
    → (heap' : Heap Object) × (free_loop n j array heap ≡ some heap')
      × ((q : ℕ) → load heap' q ≡ load before q)
unfolding free_loop
free_loop-Buffers before array zero j b heap ok there =
    (heap, refl, λ q. ground (arith, ok.content_is q))
free_loop-Buffers before array (suc n) j b heap ok there =
    let live : load heap (b + j) ≡ some nulldrv_cmd = ground (arith, ok.content_is (b + j)) in
    let (heap1, run, size, content) =
      load-free heap (b + j) nulldrv_cmd (omega (arith, ok.not_null)) live in
    let one : b + j + 1 ≡ b + (j + 1) = omega arith in
    let less = Buffers-free before heap heap1 (b + j) n ok content in
    let (heap', rest, same) =
      free_loop-Buffers before array n (j + 1) b heap1 (rw one at less)
        (λ k lt. there k (omega arith)) in
    (
      heap',
      free_loop-step n j (b + j) array heap heap1 heap' (there j (omega arith)) run rest,
      same,
    )

-- Where the loop stands before round `i`: it has stored `i` handles, from the first free address on.
record Filling (before heap : Heap Object) (cmd_ret : List ℕ) (count i : ℕ) : Type 0 where
  buffers : Buffers before heap (length before.blocks) i
  handles : (k : ℕ) → k < i → get_elem? cmd_ret k ≡ some (length before.blocks + k)
  size : length heap.blocks ≡ length before.blocks + i
  room : count ≤ length cmd_ret

-- The next buffer is allocated and stored.
Filling-write :
    (before heap heap' : Heap Object) (cmd_ret : List ℕ) (count i : ℕ)
    → Filling before heap cmd_ret count i
    → i < count
    → Adds heap heap' (length heap.blocks) nulldrv_cmd
    → Filling before heap' (set cmd_ret i (length heap.blocks)) count (i + 1)
Filling-write before heap heap' cmd_ret count i f lt adds = record {
  buffers = record {
    content_is = λ q. elim (Bool-cases (q == length heap.blocks)) [
      | inl same ↦ ground (arith, adds.load_is q, f.size)
      | inr other ↦ ground (arith, adds.load_is q, f.buffers.content_is q, f.size)
    ];
    before_is = f.buffers.before_is;
    not_null = f.buffers.not_null;
  };
  handles = λ k le. elim (Bool-cases (k == i)) [
    | inl same ↦
        let e : k ≡ i = ground arith in
        rw e (
          get_elem?-set_self cmd_ret i (length heap.blocks) (omega (arith, f.room))
          ∙ ap some f.size)
    | inr other ↦
        get_elem?-set_ne cmd_ret i k (length heap.blocks) (ground arith)
        ∙ f.handles k (ground arith)
  ];
  size = omega (arith, adds.size_is, f.size);
  room = rw length-set f.room;
}

-- All buffers, or none: the two ends of a call.
pub record Allocated (before : Heap Object) (count : ℕ) (out : Filled) : Type 0 where
  pub result_is : out.0 ≡ success
  pub handles_are : (k : ℕ) → k < count → get_elem? out.1 k ≡ some (length before.blocks + k)
  pub memory_is : Buffers before out.2 (length before.blocks) count

pub record Refused (gives : ℕ → Bool) (before : Heap Object) (out : Filled) : Type 0 where
  pub result_is : out.0 ≡ error_out_of_host_memory
  pub full : HasFailure gives
  pub memory_is : (q : ℕ) → load out.2 q ≡ load before q

cmd_loop-more :
    (gives : ℕ → Bool) (n i p : ℕ) (cmd_ret : List ℕ) (heap heap' : Heap Object) (out : Filled)
    → malloc gives nulldrv_cmd heap ≡ (some p, heap')
    → i < length cmd_ret
    → cmd_loop gives n (i + 1) (set cmd_ret i p) heap' ≡ some out
    → cmd_loop gives (suc n) i cmd_ret heap ≡ some out
unfolding cmd_loop nulldrv_base_create write
cmd_loop-more gives n i p cmd_ret heap heap' out run lt rest = ground (arith, run, rest)

cmd_loop-stop :
    (gives : ℕ → Bool) (n i : ℕ) (cmd_ret : List ℕ) (heap heap' heap'' : Heap Object)
    → malloc gives nulldrv_cmd heap ≡ (none, heap')
    → free_loop i 0 cmd_ret heap' ≡ some heap''
    → cmd_loop gives (suc n) i cmd_ret heap ≡ some (error_out_of_host_memory, cmd_ret, heap'')
unfolding cmd_loop nulldrv_base_create
cmd_loop-stop gives n i cmd_ret heap heap' heap'' run freed = ground (arith, run, freed)

-- A failed call of `malloc` changes no block.
Buffers-same :
    (before heap heap' : Heap Object) (b n : ℕ)
    → heap'.blocks ≡ heap.blocks
    → Buffers before heap b n
    → Buffers before heap' (b + 0) n
Buffers-same before heap heap' b n same ok =
    let start : b + 0 ≡ b = omega arith in
    rw start (record {
      content_is = λ q. load-same heap heap' same q ∙ ok.content_is q;
      before_is = ok.before_is;
      not_null = ok.not_null;
    })

cmd_loop-Outcome :
    (gives : ℕ → Bool) (before : Heap Object) (count n i : ℕ) (cmd_ret : List ℕ)
    (heap : Heap Object)
    → n + i ≡ count
    → Filling before heap cmd_ret count i
    → (out : Filled) × (cmd_loop gives n i cmd_ret heap ≡ some out)
      × (Allocated before count out ⊎ Refused gives before out)
unfolding cmd_loop
cmd_loop-Outcome gives before count zero i cmd_ret heap at f = (
  (success, cmd_ret, heap),
  refl,
  inl (record {
    result_is = refl;
    handles_are = λ k lt. f.handles k (omega (arith, at));
    memory_is = let all : i ≡ count = omega (arith, at) in rw all at f.buffers;
  }),
)
cmd_loop-Outcome gives before count (suc n) i cmd_ret heap at f =
    elim (malloc-cases gives nulldrv_cmd heap) [
      | inl (_, (heap', run, adds)) ↦
          let (out, rest, outcome) =
            cmd_loop-Outcome gives before count n (i + 1) (set cmd_ret i (length heap.blocks)) heap'
              (omega (arith, at))
              (Filling-write before heap heap' cmd_ret count i f (omega (arith, at)) adds) in
          (
            out,
            cmd_loop-more gives n i (length heap.blocks) cmd_ret heap heap' out run
                (omega (arith, at, f.room)) rest,
            outcome,
          )
      | inr (full, (heap', run, same)) ↦
          let (heap'', freed, back) =
            free_loop-Buffers before cmd_ret i 0 (length before.blocks) heap'
              (Buffers-same before heap heap' (length before.blocks) i same f.buffers)
              (λ k lt. f.handles k (omega arith)) in
          (
            (error_out_of_host_memory, cmd_ret, heap''),
            cmd_loop-stop gives n i cmd_ret heap heap' heap'' run freed,
            inr (record { result_is = refl; full = (heap.attempts, full); memory_is = back }),
          )
    ]

load-behind : (heap : Heap Object) (q : ℕ) → length heap.blocks ≤ q → load heap q ≡ none
load-behind heap q le = elim (Option-cases (load heap q)) [
  | inl dead ↦ dead
  | inr (a, live) ↦ absurd (omega (arith, load-lt heap q a live))
]

-- A call of `vkAllocateCommandBuffers` for an array that is large enough returns, and either it has
-- made the buffers asked for, with new handles in the array, and nothing else is changed; or a call
-- of `malloc` has failed, the result says so, and every address holds what it held before. After
-- the first of the two, `vkFreeCommandBuffers` on the array returns, and every address holds what
-- it held before.
pub allocate_command_buffers-Outcome :
    (gives : ℕ → Bool) (count : ℕ) (command_buffers : List ℕ) (heap : Heap Object)
    → IsHeap heap
    → count ≤ length command_buffers
    → (out : Filled) × (allocate_command_buffers gives count command_buffers heap ≡ some out)
      × (Allocated heap count out
            × ((heap' : Heap Object) × (free_command_buffers count out.1 out.2 ≡ some heap')
                × ((q : ℕ) → load heap' q ≡ load heap q))
          ⊎ Refused gives heap out)
unfolding allocate_command_buffers nulldrv_cmd_create free_command_buffers
allocate_command_buffers-Outcome gives count command_buffers heap ok room =
    let (out, run, outcome) =
      cmd_loop-Outcome gives heap count count 0 command_buffers heap (omega arith) (record {
        buffers = record {
          content_is = λ q. ground arith;
          before_is = λ q le. load-behind heap q le;
          not_null = ok.has_null;
        };
        handles = λ k lt. absurd (omega (arith, lt));
        size = omega arith;
        room = room;
      }) in
    (
      out,
      run,
      elim outcome [
        | inr refused ↦ inr refused
        | inl made ↦
            let start : length heap.blocks + 0 ≡ length heap.blocks = omega arith in
            inl (
              made,
              free_loop-Buffers heap out.1 count 0 (length heap.blocks) out.2
                  (rw start made.memory_is) (λ k lt. made.handles_are k (omega (arith, lt))),
            )
      ],
    )
