-- ===== src/Swapchain/Present.antt =====
-- The present loop of `vk_QueuePresentKHR` in src/wsi/swapchain.c.
use vulkan_wsi_tizen.Common.{
  ℕ, zero, suc, ◌+◌, ◌≤◌, ◌≡◌, refl, ap, true, Option, some, List, [], ◌∷◌, ◌++◌, map, arith,
  length, drop, set, get_elem?, ltb, lt→ltb, length-append,
}
use mathlib.Core.List.{append_assoc}
use vulkan_wsi_tizen.Enumerate.{write}
use vulkan_wsi_tizen.Enumerate.Results.{VkResult, success}
use vulkan_wsi_tizen.Swapchain.{
  Buffer, Swapchain, Presented, fence_of, store_result, present_loop, vk_queue_present_khr,
}

-- A swapchain with an index of one of its buffers.
pub record Request : Type 0 where
  pub chain : Swapchain
  pub index : ℕ
  pub buffer : Buffer
  pub at : get_elem? chain.buffers index ≡ some buffer

module _ {A : Type 0} where
  get_elem?-middle :
      (xs ys : List A) (y : A) (i : ℕ) → length xs ≡ i → get_elem? (xs ++ y ∷ ys) i ≡ some y
  get_elem?-middle [] ys y zero h = refl
  get_elem?-middle [] ys y (suc i) h = absurd (omega arith)
  get_elem?-middle (x ∷ xs) ys y zero h = absurd (omega arith)
  get_elem?-middle (x ∷ xs) ys y (suc i) h = get_elem?-middle xs ys y i (omega arith)

  set-middle :
      (xs ys : List A) (y z : A) (i : ℕ)
      → length xs ≡ i
      → set (xs ++ y ∷ ys) i z ≡ (xs ++ z ∷ []) ++ ys
  set-middle [] ys y z zero h = refl
  set-middle [] ys y z (suc i) h = absurd (omega arith)
  set-middle (x ∷ xs) ys y z zero h = absurd (omega arith)
  set-middle (x ∷ xs) ys y z (suc i) h = ap (λ zs. x ∷ zs) (set-middle xs ys y z i (omega arith))

  length-snoc : (xs : List A) (y : A) (i : ℕ) → length xs ≡ i → length (xs ++ y ∷ []) ≡ i + 1
  length-snoc xs y i h = omega (arith, length-append xs (y ∷ []))

module _ (signal : Option (ℕ → Option ℕ)) (present_image : ℕ → Presented → VkResult) where
  -- The present that a request asks for.
  abbrev pub presented : Request → Presented
  presented q = (q.chain, q.buffer.tbm, fence_of signal q.buffer.image)

  -- The answers of the backends, from the given round on.
  abbrev pub answers : ℕ → List Request → List VkResult
  answers i [] = []
  answers i (q ∷ requests) = present_image i (presented q) ∷ answers (i + 1) requests

  write-middle :
      (done rest : List VkResult) (r res : VkResult) (i : ℕ)
      → length done ≡ i
      → store_result (some (done ++ r ∷ rest)) i res ≡ some (some ((done ++ res ∷ []) ++ rest))
  unfolding store_result write
  write-middle done rest r res i size =
      let room : ltb i (length (done ++ r ∷ rest)) ≡ true =
        lt→ltb i _ (omega (arith, length-append done (r ∷ rest))) in
      rw (room, set-middle done rest r res i size) refl

  present_loop-answers :
      (requests : List Request) (chains : List Swapchain) (indices : List ℕ)
      (done rest : List VkResult) (i : ℕ)
      → length chains ≡ i
      → length indices ≡ i
      → length done ≡ i
      → length requests ≤ length rest
      → present_loop signal present_image
          (length requests)
          i
          (chains ++ map (λ (q : Request). q.chain) requests)
          (indices ++ map (λ (q : Request). q.index) requests)
          (some (done ++ rest))
        ≡ some (
          map presented requests,
          some (done ++ (answers i requests ++ drop (length requests) rest)),
        )
  unfolding present_loop
  present_loop-answers [] chains indices done rest i c x d room = refl
  present_loop-answers (q ∷ requests) chains indices done [] i c x d room = absurd (omega arith)
  present_loop-answers (q ∷ requests) chains indices done (r ∷ rest) i c x d room =
      let res = present_image i (presented q) in
      let next =
        present_loop-answers requests (chains ++ q.chain ∷ []) (indices ++ q.index ∷ [])
          (done ++ res ∷ []) rest (i + 1) (length-snoc chains q.chain i c)
          (length-snoc indices q.index i x) (length-snoc done res i d) (omega arith) in
      let chains' : (chains ++ q.chain ∷ []) ++ map (λ (q : Request). q.chain) requests
          ≡ chains ++ q.chain ∷ map (λ (q : Request). q.chain) requests =
        append_assoc chains (q.chain ∷ []) _ in
      let indices' : (indices ++ q.index ∷ []) ++ map (λ (q : Request). q.index) requests
          ≡ indices ++ q.index ∷ map (λ (q : Request). q.index) requests =
        append_assoc indices (q.index ∷ []) _ in
      rw
        (
          get_elem?-middle chains _ q.chain i c,
          get_elem?-middle indices _ q.index i x,
          q.at,
          write-middle done rest r res i d,
        )
        (rw (← chains', ← indices', next)
          (ap (λ rs. some (presented q ∷ map presented requests, some rs))
            (append_assoc done (res ∷ [])
              (answers (i + 1) requests ++ drop (length requests) rest))))

  -- For requests whose indices name buffers, and an array with room for their results, the call
  -- presents the named buffer of each swapchain once, in order, with the fence that the driver
  -- gives for its image; the answer of each backend is stored at its place, the rest of the array
  -- is left alone, and the call itself says success whatever the answers are.
  pub vk_queue_present_khr-answers :
      (requests : List Request) (results : List VkResult)
      → length requests ≤ length results
      → vk_queue_present_khr signal present_image
          (length requests)
          (map (λ (q : Request). q.chain) requests)
          (map (λ (q : Request). q.index) requests)
          (some results)
        ≡ some (
          success,
          map presented requests,
          some (answers 0 requests ++ drop (length requests) results),
        )
  unfolding vk_queue_present_khr
  vk_queue_present_khr-answers requests results room =
      rw (present_loop-answers requests [] [] [] results 0 refl refl refl room) refl
