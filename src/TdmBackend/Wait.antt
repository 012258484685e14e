-- ===== src/TdmBackend/Wait.antt =====
-- The loop of src/wsi/swapchain_tdm.c that waits for a free buffer.
use vulkan_wsi_tizen.Common.{
  ℕ, zero, suc, ◌<◌, ◌≡◌, ◌≢◌, refl, ◌∙◌, sym, inl, inr, Bool, true, false, ◌&&◌, ◌||◌, not, some,
  List, [], ◌∷◌, arith, get_elem?, Bool-cases, ◌⊎◌,
}
use vulkan_wsi_tizen.TdmBackend.{Wake, Waited, ready, timed_out, waiting, wait_loop}

-- Whether a wake-up ends the wait.
abbrev pub is_end : Bool → Wake → Bool
is_end timed w = timed && w.timed_out || w.can_dequeue

-- The wake-ups before an index do not end the wait.
abbrev pub IsQuiet : Bool → ℕ → List Wake → Type 0
IsQuiet timed i wakes =
    (k : ℕ) (w : Wake) → k < i → get_elem? wakes k ≡ some w → is_end timed w ≡ false

-- How the wait ends, by the first wake-up that ends it.
pub data Ending (timed can_dequeue : Bool) (wakes : List Wake) : Waited → Type 0 where
  at_once : can_dequeue ≡ true → Ending timed can_dequeue wakes ready
  buffer :
      (i : ℕ) (w : Wake)
      → can_dequeue ≡ false
      → get_elem? wakes i ≡ some w
      → IsQuiet timed i wakes
      → timed && w.timed_out ≡ false
      → w.can_dequeue ≡ true
      → Ending timed can_dequeue wakes ready
  expired :
      (i : ℕ) (w : Wake)
      → can_dequeue ≡ false
      → get_elem? wakes i ≡ some w
      → IsQuiet timed i wakes
      → timed ≡ true
      → w.timed_out ≡ true
      → Ending timed can_dequeue wakes timed_out
  still :
      can_dequeue ≡ false
      → ((k : ℕ) (w : Wake) → get_elem? wakes k ≡ some w → is_end timed w ≡ false)
      → Ending timed can_dequeue wakes waiting

IsQuiet-cons :
    (timed : Bool) (i : ℕ) (w : Wake) (wakes : List Wake)
    → is_end timed w ≡ false
    → IsQuiet timed i wakes
    → IsQuiet timed (suc i) (w ∷ wakes)
IsQuiet-cons timed i w wakes off quiet zero v lt at = ground arith
IsQuiet-cons timed i w wakes off quiet (suc k) v lt at = quiet k v (omega arith) at

still-cons :
    (timed : Bool) (w : Wake) (wakes : List Wake)
    → is_end timed w ≡ false
    → ((k : ℕ) (v : Wake) → get_elem? wakes k ≡ some v → is_end timed v ≡ false)
    → (k : ℕ) (v : Wake) → get_elem? (w ∷ wakes) k ≡ some v
    → is_end timed v ≡ false
still-cons timed w wakes off quiet zero v at = ground arith
still-cons timed w wakes off quiet (suc k) v at = quiet k v at

-- A wake-up without effect is skipped.
Ending-cons :
    (timed : Bool) (w : Wake) (wakes : List Wake) (r : Waited)
    → is_end timed w ≡ false
    → Ending timed false wakes r
    → Ending timed false (w ∷ wakes) r
Ending-cons timed w wakes _ off (at_once h) = cc
Ending-cons timed w wakes _ off (buffer i v empty at quiet live can) =
    buffer (suc i) v refl at (IsQuiet-cons timed i w wakes off quiet) live can
Ending-cons timed w wakes _ off (expired i v empty at quiet is_timed out) =
    expired (suc i) v refl at (IsQuiet-cons timed i w wakes off quiet) is_timed out
Ending-cons timed w wakes _ off (still empty quiet) =
    still refl (still-cons timed w wakes off quiet)

Ending-eq :
    (timed can : Bool) (wakes : List Wake) (r r' : Waited)
    → r ≡ r'
    → Ending timed can wakes r'
    → Ending timed can wakes r
Ending-eq timed can wakes r r' e ending = rw e ending

-- The loop goes by the first wake-up that ends the wait: with a buffer if there is one, with a
-- timeout if the wait is timed and has timed out; where no wake-up ends it, it waits on.
pub wait_loop-Ending :
    (timed can : Bool) (wakes : List Wake) → Ending timed can wakes (wait_loop timed can wakes)
unfolding wait_loop
wait_loop-Ending timed true wakes = at_once refl
wait_loop-Ending timed false [] = still refl (λ k w at. cc)
wait_loop-Ending timed false (w ∷ wakes) = elim (Bool-cases (timed && w.timed_out)) [
  | inl out ↦
      Ending-eq timed false (w ∷ wakes) _ _ (ground arith)
        (expired 0 w refl refl (λ k v lt. absurd (omega arith)) (ground arith) (ground arith))
  | inr live ↦ elim (Bool-cases (w.can_dequeue)) [
    | inl can ↦
        Ending-eq timed false (w ∷ wakes) _ _ (ground arith)
          (buffer 0 w refl refl (λ k v lt. absurd (omega arith)) live can)
    | inr empty ↦
        Ending-eq timed false (w ∷ wakes) _ _ (ground arith)
          (Ending-cons timed w wakes _ (ground arith) (wait_loop-Ending timed false wakes))
  ]
]

pub not-waiting :
    (timed can : Bool) (wakes : List Wake) (i : ℕ) (w : Wake)
    → get_elem? wakes i ≡ some w
    → is_end timed w ≡ true
    → wait_loop timed can wakes ≢ waiting
not-waiting timed can wakes i w at ends stays = sleeper (wait_loop-Ending timed can wakes) stays
  where
    sleeper : {r : Waited} → Ending timed can wakes r → r ≡ waiting → ⊥
    sleeper (at_once _) same = cc
    sleeper (buffer _ _ _ _ _ _ _) same = cc
    sleeper (expired _ _ _ _ _ _ _) same = cc
    sleeper (still _ quiet) same = cc (sym (quiet i w at) ∙ ends)

pub wait_loop-at_once :
    (timed can : Bool) (wakes : List Wake) → can ≡ true → wait_loop timed can wakes ≡ ready
unfolding wait_loop
wait_loop-at_once timed can wakes there = rw there refl

-- The wait ends if a buffer is there at first, or some wake-up ends it.
pub awake :
    (timed can : Bool) (wakes : List Wake)
    → (can ≡ true) ⊎ (i : ℕ) × (w : Wake) × (get_elem? wakes i ≡ some w) × (is_end timed w ≡ true)
    → (wait_loop timed can wakes ≡ ready) ⊎ (wait_loop timed can wakes ≡ timed_out)
awake timed can wakes (inl there) = inl (wait_loop-at_once timed can wakes there)
awake timed can wakes (inr (i, w, at, ends)) =
    which (wait_loop timed can wakes) (not-waiting timed can wakes i w at ends)
  where
    which : (r : Waited) → r ≢ waiting → (r ≡ ready) ⊎ (r ≡ timed_out)
    which ready _ = inl refl
    which timed_out _ = inr refl
    which waiting not = absurd (not refl)
