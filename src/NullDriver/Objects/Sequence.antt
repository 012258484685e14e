-- ===== src/NullDriver/Objects/Sequence.antt =====
-- Many calls of the creating entry points of null-driver/null-driver.c, one after the other.
use vulkan_wsi_tizen.Common.{
  ℕ, ◌+◌, ◌≤◌, ◌≡◌, Bool, Option, none, some, List, [], ◌∷◌, length, arith, ◌>>=◌, inl, inr, refl,
  true, false, ◌==◌, ◌≢◌, if◌then◌else◌, Option-cases,
}
use vulkan_wsi_tizen.Enumerate.Results.{VkResult, success, error_out_of_host_memory}
use vulkan_wsi_tizen.NullDriver.Heap.{Heap, HasFailure, IsHeap, load, load-lt}
use vulkan_wsi_tizen.NullDriver.Objects.{Object}
use vulkan_wsi_tizen.NullDriver.Objects.Calls.{
  Call, run_call, create_fence_call, create_image_call, create_image_from_native_buffer_tizen_call,
  create_sampler_call, create_image_view_call, create_buffer_call, create_buffer_view_call,
  create_descriptor_set_layout_call, create_pipeline_layout_call, create_graphics_pipelines_call,
  create_descriptor_pool_call, create_framebuffer_call, create_render_pass_call,
  create_shader_module_call, create_instance_call, allocate_memory_call,
}
use vulkan_wsi_tizen.NullDriver.Objects.Creation.{run_call-Settles}
use vulkan_wsi_tizen.NullDriver.Objects.Promises.{Holds, Keeps, Keeps-trans}

-- The answers to the calls, in order, and the memory after them.
unfoldable pub run_calls :
    (gives : ℕ → Bool)
    → List Call
    → Heap Object
    → Option (List (Call × VkResult × Option ℕ) × Heap Object)
run_calls gives [] heap = some ([], heap)
run_calls gives (c ∷ calls) heap = run_call gives c heap >>= λ (result, handle, heap').
    run_calls gives calls heap' >>= λ (answers, heap'').
    some ((c, result, handle) ∷ answers, heap'')

-- That every answer is a failure, after a call of `malloc` that failed, or the number of a new block,
-- at which the memory holds the object that the call asked for. The numbers serve the proof only.
data Ordered (gives : ℕ → Bool) (heap : Heap Object)
    : ℕ → List (Call × VkResult × Option ℕ) → Type 0 where
  done : (lo : ℕ) → Ordered gives heap lo []
  failed :
      (lo : ℕ) (c : Call) (answers : List (Call × VkResult × Option ℕ))
      → HasFailure gives
      → Ordered gives heap lo answers
      → Ordered gives heap lo ((c, error_out_of_host_memory, none) ∷ answers)
  created :
      (lo p : ℕ) (c : Call) (answers : List (Call × VkResult × Option ℕ))
      → lo ≤ p
      → Holds c heap p
      → Ordered gives heap (p + 1) answers
      → Ordered gives heap lo ((c, success, some p) ∷ answers)

Ordered-below :
    (gives : ℕ → Bool) (heap : Heap Object) (lo lo' : ℕ)
    (answers : List (Call × VkResult × Option ℕ))
    → lo ≤ lo'
    → Ordered gives heap lo' answers
    → Ordered gives heap lo answers
Ordered-below gives heap lo lo' [] le (done _) = done lo
Ordered-below gives heap lo lo' _ le (failed _ c answers full rest) =
    failed lo c answers full (Ordered-below gives heap lo lo' answers le rest)
Ordered-below gives heap lo lo' _ le (created _ p c answers le' holds rest) =
    created lo p c answers (omega arith) holds rest

Holds-Keeps : (c : Call) (h1 h2 : Heap Object) (p : ℕ) → Keeps h1 h2 → Holds c h1 p → Holds c h2 p
Holds-Keeps (allocate_memory_call allocation_size) h1 h2 p k (bo, there, apart, mem, block) =
    (bo, there, apart, k.loads p _ mem, k.loads bo _ block)
Holds-Keeps create_fence_call h1 h2 p k holds = k.loads p _ holds
Holds-Keeps create_sampler_call h1 h2 p k holds = k.loads p _ holds
Holds-Keeps (create_image_view_call image) h1 h2 p k holds = k.loads p _ holds
Holds-Keeps (create_buffer_call size usage) h1 h2 p k holds = k.loads p _ holds
Holds-Keeps (create_buffer_view_call buffer) h1 h2 p k holds = k.loads p _ holds
Holds-Keeps create_descriptor_set_layout_call h1 h2 p k holds = k.loads p _ holds
Holds-Keeps create_pipeline_layout_call h1 h2 p k holds = k.loads p _ holds
Holds-Keeps (create_graphics_pipelines_call create_info_count) h1 h2 p k holds = k.loads p _ holds
Holds-Keeps (create_descriptor_pool_call device) h1 h2 p k holds = k.loads p _ holds
Holds-Keeps create_framebuffer_call h1 h2 p k holds = k.loads p _ holds
Holds-Keeps create_render_pass_call h1 h2 p k holds = k.loads p _ holds
Holds-Keeps create_shader_module_call h1 h2 p k holds = k.loads p _ holds
Holds-Keeps create_instance_call h1 h2 p k holds = k.loads p _ holds
Holds-Keeps (create_image_call info) h1 h2 p k holds = k.loads p _ holds
Holds-Keeps (create_image_from_native_buffer_tizen_call surface info) h1 h2 p k holds =
    k.loads p _ holds

run_calls-Ordered :
    (gives : ℕ → Bool) (calls : List Call) (heap : Heap Object)
    → (answers : List (Call × VkResult × Option ℕ)) × (heap' : Heap Object) × (run_calls gives calls
          heap
        ≡ some (answers, heap'))
      × Ordered gives heap' (length heap.blocks) answers
      × Keeps heap heap'
unfolding run_calls
run_calls-Ordered gives [] heap =
    ([], heap, refl, done _, record { loads = λ q a found. found; grows = omega arith })
run_calls-Ordered gives (c ∷ calls) heap =
    let (out, run, (kept, outcome)) = run_call-Settles gives c heap in
    let (answers, heap', rest, handed, kept') = run_calls-Ordered gives calls out.2 in
    (
      (c, out.0, out.1) ∷ answers,
      heap',
      rw (run, rest) refl,
      elim outcome [
        | inl s ↦
            rw (s.result_is, s.handle_is)
              (created (length heap.blocks) s.handle c answers s.is_new
                (Holds-Keeps c out.2 heap' s.handle kept' s.holds)
                (Ordered-below gives heap' (s.handle + 1) (length out.2.blocks) answers
                  (omega (arith, s.is_in)) handed))
        | inr f ↦
            rw (f.result_is, f.nothing_is)
              (failed (length heap.blocks) c answers f.full (
                Ordered-below gives heap' (length heap.blocks) (length out.2.blocks) answers
                  kept.grows handed))
      ],
      Keeps-trans heap out.2 heap' kept kept',
    )

-- Whether a handle is one of those given already.
unfoldable pub is_given : List ℕ → ℕ → Bool
is_given [] p = false
is_given (q ∷ given) p = if q == p then true else is_given given p

-- That every answer is a failure, after a call of `malloc` that failed, or a handle which is not
-- `NULL`, at which nothing was live before the calls, which no call before has given, and at which
-- the memory after the calls holds the object that was asked for.
pub data Handed (gives : ℕ → Bool) (before after : Heap Object)
    : (given : List ℕ) → List (Call × VkResult × Option ℕ) → Type 0 where
  all_handed : (given : List ℕ) → Handed gives before after given []
  refused :
      (given : List ℕ) (c : Call) (answers : List (Call × VkResult × Option ℕ))
      → HasFailure gives
      → Handed gives before after given answers
      → Handed gives before after given ((c, error_out_of_host_memory, none) ∷ answers)
  handed :
      (given : List ℕ) (p : ℕ) (c : Call) (answers : List (Call × VkResult × Option ℕ))
      → p ≢ 0
      → load before p ≡ none
      → is_given given p ≡ false
      → Holds c after p
      → Handed gives before after (p ∷ given) answers
      → Handed gives before after given ((c, success, some p) ∷ answers)

-- A number behind the blocks is that of no live block.
load-behind : (heap : Heap Object) (p : ℕ) → length heap.blocks ≤ p → load heap p ≡ none
load-behind heap p behind = elim (Option-cases (load heap p)) [
  | inl nothing ↦ nothing
  | inr (a, live) ↦ absurd (omega (arith, load-lt heap p a live))
]

Ordered-Handed :
    (gives : ℕ → Bool) (before after : Heap Object) (lo : ℕ) (given : List ℕ)
    (answers : List (Call × VkResult × Option ℕ))
    → IsHeap before
    → length before.blocks ≤ lo
    → ((p : ℕ) → lo ≤ p → is_given given p ≡ false)
    → Ordered gives after lo answers
    → Handed gives before after given answers
unfolding is_given
Ordered-Handed gives before after lo given _ ok le apart (done _) = all_handed given
Ordered-Handed gives before after lo given _ ok le apart (failed _ c answers full rest) =
    refused given c answers full
      (Ordered-Handed gives before after lo given answers ok le apart rest)
Ordered-Handed gives before after lo given _ ok le apart (created _ p c answers above holds rest) =
    handed given p c answers (omega (arith, ok.has_null)) (load-behind before p (omega arith))
      (apart p above) holds
      (Ordered-Handed gives before after (p + 1) (p ∷ given) answers ok (omega arith)
        (λ q behind. ground (arith, apart q (omega arith))) rest)

-- Any calls that create objects, whichever fail, on a heap with nothing at `NULL`: they return, a
-- failure is one of `malloc`, no handle that they give is `NULL`, at none of them was anything live
-- before, no two are the same, and after all of the calls each of them still is a handle of the
-- object that was asked for. What was live before the calls stays.
pub run_calls-Handed :
    (gives : ℕ → Bool) (calls : List Call) (heap : Heap Object)
    → IsHeap heap
    → (answers : List (Call × VkResult × Option ℕ)) × (heap' : Heap Object) × (run_calls gives calls
          heap
        ≡ some (answers, heap'))
      × Handed gives heap heap' [] answers
      × Keeps heap heap'
unfolding is_given
run_calls-Handed gives calls heap ok =
    let (answers, heap', run, ordered, kept) = run_calls-Ordered gives calls heap in
    (
      answers,
      heap',
      run,
      Ordered-Handed gives heap heap' (length heap.blocks) [] answers ok (omega arith)
          (λ p behind. refl) ordered,
      kept,
    )
