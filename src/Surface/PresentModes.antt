-- ===== src/Surface/PresentModes.antt =====
-- The present modes that src/wsi/surface.c lists for a surface.
use vulkan_wsi_tizen.Common.{
  ℕ, suc, ◌+◌, ◌-◌, ◌≤◌, ◌<◌, ◌≡◌, refl, sym, ap, ◌∙◌, inl, inr, Bool, true, false, ◌&&◌, Option,
  none, some, List, [], ◌∷◌, ◌++◌, arith, length, take, drop, set, min, ltb, if◌then◌else◌, ◌>>=◌,
  Bool-cases, length-set, >>=-eq-some,
}
use mathlib.Core.List.{append_assoc}
use vulkan_wsi_tizen.Enumerate.{write}
use vulkan_wsi_tizen.Enumerate.Results.{success, incomplete}
use vulkan_wsi_tizen.Enumerate.Copy.{
  Enumerates, take-suc-set, drop-set, take-append-drop, take-length,
}
use vulkan_wsi_tizen.Surface.{
  PresentMode, fifo, mailbox, immediate, fifo_relaxed, TplModes, count_mode, store_mode,
  support_mode_cnt, tpl_get_surface_present_modes, tdm_get_surface_present_modes,
}

-- The modes whose bit is set.
abbrev pub selected : List (Bool × PresentMode) → List PresentMode
selected [] = []
selected ((has, mode) ∷ rest) = if has then mode ∷ selected rest else selected rest

-- The stores in turn.
abbrev store_all :
    ℕ → List (Bool × PresentMode) → ℕ × List PresentMode → Option (ℕ × List PresentMode)
store_all n [] s = some s
store_all n ((has, mode) ∷ rest) s = store_mode n has mode s >>= λ s'. store_all n rest s'

module _ (n : ℕ) where
  store_mode-keeps :
      (has : Bool) (mode : PresentMode) (i : ℕ) (modes : List PresentMode)
      → ltb i n && has ≡ false
      → store_mode n has mode (i, modes) ≡ some (i, modes)
  unfolding store_mode
  store_mode-keeps has mode i modes off = ground arith

  store_mode-adds :
      (mode : PresentMode) (i : ℕ) (modes : List PresentMode)
      → i < n
      → i < length modes
      → store_mode n true mode (i, modes) ≡ some (i + 1, set modes i mode)
  unfolding store_mode write
  store_mode-adds mode i modes lt room = ground arith

  -- The stores write the selected modes from index `i` on, as far as the count goes.
  store_all-selected :
      (rest : List (Bool × PresentMode)) (i : ℕ) (modes : List PresentMode)
      → i ≤ n
      → min n (i + length (selected rest)) ≤ length modes
      → store_all n rest (i, modes)
        ≡ some (
          min n (i + length (selected rest)),
          take i modes
              ++ (take (n - i) (selected rest) ++ drop (min n (i + length (selected rest))) modes),
        )
  store_all-selected [] i modes le room =
      let end : min n (i + 0) ≡ i = omega arith in
      let nothing : take (n - i) (selected []) ≡ [] =
        take-length (n - i) (selected []) (omega arith) in
      rw (end, nothing) (ap (λ xs. some (i, xs)) (sym (take-append-drop i modes)))
  store_all-selected ((false, mode) ∷ rest) i modes le room =
      rw (store_mode-keeps false mode i modes (ground arith))
        (store_all-selected rest i modes le room)
  store_all-selected ((true, mode) ∷ rest) i modes le room = elim (Bool-cases (ltb i n)) [
    | inr full ↦
        let run = store_all-selected rest i modes le (omega arith) in
        let none_left : n - i ≡ 0 = ground arith in
        let same : min n (i + length (selected rest)) ≡ n = ground arith in
        let end : min n (i + suc (length (selected rest))) ≡ n = ground arith in
        rw (store_mode-keeps true mode i modes (ground arith), none_left, end)
          (rw (none_left, same) at run)
    | inl more ↦
        let lt : i < n = ground arith in
        let run =
          store_all-selected rest (suc i) (set modes i mode) (omega arith)
            (omega (arith, length-set modes i mode)) in
        let next : i + 1 ≡ suc i = omega arith in
        let left : n - i ≡ suc (n - suc i) = omega arith in
        let same : min n (suc i + length (selected rest))
            ≡ min n (i + suc (length (selected rest))) =
          omega arith in
        rw
          (
            store_mode-adds mode i modes lt (omega arith),
            next,
            run,
            same,
            left,
            take-suc-set i modes mode (omega arith),
            drop-set i (min n (i + suc (length (selected rest)))) modes mode (omega arith),
          )
          (ap (λ xs. some (min n (i + suc (length (selected rest))), xs))
            (append_assoc (take i modes) (mode ∷ []) _))
  ]

-- Four stores in turn, and what follows them.
store_all-then :
    {A : Type 0} (n : ℕ) (b1 b2 b3 b4 : Bool) (m1 m2 m3 m4 : PresentMode) (modes : List PresentMode)
    (r : ℕ × List PresentMode) (k : ℕ × List PresentMode → Option A)
    → store_all n ((b1, m1) ∷ (b2, m2) ∷ (b3, m3) ∷ (b4, m4) ∷ []) (0, modes) ≡ some r
    → (store_mode n b1 m1 (0, modes) >>= λ s1.
        store_mode n b2 m2 s1 >>= λ s2. store_mode n b3 m3 s2 >>= λ s3. store_mode n b4 m4 s3 >>= k)
      ≡ k r
store_all-then n b1 b2 b3 b4 m1 m2 m3 m4 modes r k run =
    let (s1, e1, r1) = >>=-eq-some (store_mode n b1 m1 (0, modes)) _ run in
    let (s2, e2, r2) = >>=-eq-some (store_mode n b2 m2 s1) _ r1 in
    let (s3, e3, r3) = >>=-eq-some (store_mode n b3 m3 s2) _ r2 in
    let (s4, e4, r4) = >>=-eq-some (store_mode n b4 m4 s3) _ r3 in
    let same : s4 ≡ r = cc r4 in rw (e1, e2, e3, e4, same) refl

abbrev pub tpl_table : TplModes → List (Bool × PresentMode)
tpl_table t =
    (t.has_fifo, fifo)
    ∷ (t.has_mailbox, mailbox)
    ∷ (t.has_immediate, immediate)
    ∷ (t.has_fifo_relaxed, fifo_relaxed)
    ∷ []

support_mode_cnt-selected : (t : TplModes) → support_mode_cnt t ≡ length (selected (tpl_table t))
unfolding support_mode_cnt count_mode
support_mode_cnt-selected t = ground arith

-- The modes that TPL supports are enumerated, in the order of `fifo`, `mailbox`, `immediate` and
-- `fifo_relaxed`.
pub tpl_present_modes-Enumerates :
    (t : TplModes) → Enumerates (selected (tpl_table t)) (tpl_get_surface_present_modes (some t))
unfolding tpl_get_surface_present_modes
tpl_present_modes-Enumerates t =
    let count = support_mode_cnt-selected t in
    record {
      counts = λ n. rw count refl;
      fills = λ n modes room.
          let xs = selected (tpl_table t) in
          let m = min n (length xs) in
          let all : min m (0 + length xs) ≡ m = omega arith in
          let whole : m - 0 ≡ m = omega arith in
          let run = store_all-selected m (tpl_table t) 0 modes (omega arith) (omega arith) in
          let less : ltb m (length xs) ≡ ltb n (length xs) = ground arith in
          rw (count) (
            store_all-then m t.has_fifo t.has_mailbox t.has_immediate t.has_fifo_relaxed fifo
              mailbox immediate fifo_relaxed modes _ _ run
            ∙ rw (all, less, whole) refl);
    }

abbrev pub all_modes : List PresentMode
all_modes = fifo ∷ mailbox ∷ immediate ∷ fifo_relaxed ∷ []

whole : (n : ℕ) → n - 0 ≡ n
whole n = omega arith

-- A surface of a display has all four modes. With an array that holds as much as is written the call
-- writes the first of them, at most four, and says `incomplete` exactly below four; but the count that
-- it leaves is the caller's, also where that is more than four.
pub tdm_present_modes-counts :
    (n : ℕ) (modes : List PresentMode)
    → min n 4 ≤ length modes
    → (tdm_get_surface_present_modes n none ≡ some (success, length all_modes, none))
      × (tdm_get_surface_present_modes n (some modes)
          ≡ some (
            (if ltb n 4 then incomplete else success),
            n,
            some (take n all_modes ++ drop (min n 4) modes),
          ))
unfolding tdm_get_surface_present_modes
tdm_present_modes-counts n modes room = (
  refl,
  store_all-then n true true true true fifo mailbox immediate fifo_relaxed modes _ _ (
        store_all-selected n
          ((true, fifo) ∷ (true, mailbox) ∷ (true, immediate) ∷ (true, fifo_relaxed) ∷ []) 0 modes
          (omega arith) (omega arith))
      ∙ rw (whole n) refl,
)
