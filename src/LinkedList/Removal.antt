-- ===== src/LinkedList/Removal.antt =====
-- What `vk_list_remove` of src/utils/utils.h does to the list that a ring stands for.
use vulkan_wsi_tizen.Common.{
  ℕ, ◌≡◌, sym, ap, ◌∙◌, true, false, some, List, [], ◌∷◌, ◌++◌, arith, ◌==◌, ==_iff, Bool-cases,
  inl, inr,
}
use mathlib.Core.List.{append-nil}
use mathlib.Core.Path.{subst}
use vulkan_wsi_tizen.LinkedList.{Heap, null, set, store_prev, store_next, vk_list_remove}
use vulkan_wsi_tizen.LinkedList.Ring.{Seg, contains, distinct, IsRing, contains-neq, ==-refl}
use vulkan_wsi_tizen.LinkedList.Operations.{==-off}
use vulkan_wsi_tizen.LinkedList.Rotation.{IsRing-rotate}

-- The heap after a removal.
abbrev pub removed : Heap → ℕ → Heap
removed h x = record h {
  prev = set (set h.prev (h.next x) (h.prev x)) x null;
  next = set (set h.next (h.prev x) (h.next x)) x null;
}

remove-run :
    (h : Heap) (x : ℕ)
    → (x == null) ≡ false
    → (h.next x == null) ≡ false
    → (h.prev x == null) ≡ false
    → vk_list_remove h x ≡ some (removed h x)
unfolding vk_list_remove store_prev store_next
remove-run h x x_ok next_ok prev_ok = elim (Bool-cases (h.prev x == x)) [
  | inl alone ↦ ground (arith, ==_iff (h.prev x) x)
  | inr more ↦ ground arith
]

-- The node before the end of a segment is in it.
pub last-in :
    (h : Heap) (b x : ℕ) (zs : List ℕ) → Seg h b zs x → contains (h.prev x) (b ∷ zs) ≡ true
last-in h b x [] (fore, back) = ground (arith, ap (λ a. a == b) back ∙ ==-refl b)
last-in h b x (z ∷ zs) (fore, back, rest) = ground (arith, last-in h z x zs rest)

-- The segment from the first node on now ends at that node.
removed-Seg :
    (h : Heap) (a b x : ℕ) (zs : List ℕ)
    → h.next x ≡ a
    → (x == a) ≡ false
    → contains x (b ∷ zs) ≡ false
    → contains a zs ≡ false
    → distinct (b ∷ zs) ≡ true
    → Seg h b zs x
    → Seg (removed h x) b zs a
removed-Seg h a b x [] leads x_a x_out a_out apart (fore, back) =
    let prev_b = ap (λ y. y == b) back ∙ ==-refl b in
    let next_a = ap (λ y. y == a) leads ∙ ==-refl a in
    (ground (arith, prev_b, leads), ground (arith, next_a, back))
removed-Seg h a b x (z ∷ zs) leads x_a x_out a_out apart (fore, back, rest) =
    let prev_in = last-in h z x zs rest in
    let prev_b : (h.prev x == b) ≡ false =
      ==-off b (h.prev x) (contains-neq (h.prev x) b (z ∷ zs) prev_in (ground (arith, apart))) in
    let next_z : (h.next x == z) ≡ false = ap (λ y. y == z) leads ∙ ground (arith, a_out) in
    (
      ground (arith, prev_b, fore),
      ground (arith, next_z, back),
      removed-Seg h a z x zs leads x_a (ground (arith, x_out)) (ground (arith, a_out))
          (ground (arith, apart)) rest,
    )

-- Removing the node from which a ring is looked at.
remove-IsRing :
    (h : Heap) (x a : ℕ) (ys : List ℕ)
    → IsRing h x (a ∷ ys)
    → (vk_list_remove h x ≡ some (removed h x)) × IsRing (removed h x) a ys
remove-IsRing h x a ys r =
    let (fore, back, rest) = r.linked in
    let x_ok = ==-off null x (ground (arith, r.valid)) in
    let next_ok = ap (λ y. y == null) fore ∙ ==-off null a (ground (arith, r.valid)) in
    let prev_in = last-in h a x ys rest in
    let prev_ok =
      ==-off null (h.prev x)
        (contains-neq (h.prev x) null (a ∷ ys) prev_in (ground (arith, r.valid))) in
    (
      remove-run h x x_ok next_ok prev_ok,
      record {
        linked =
            removed-Seg h a a x ys fore (ground (arith, r.apart)) (ground (arith, r.apart))
              (ground (arith, r.apart)) (ground (arith, r.apart)) rest;
        apart = ground (arith, r.apart);
        valid = ground (arith, r.valid);
      },
    )

-- Removing another node than the head.
pub removed-IsRing :
    (h : Heap) (head x : ℕ) (xs ys : List ℕ)
    → IsRing h head (xs ++ x ∷ ys)
    → (vk_list_remove h x ≡ some (removed h x)) × IsRing (removed h x) head (xs ++ ys)
removed-IsRing h head x xs [] r =
    let (run, ring) = remove-IsRing h x head xs (IsRing-rotate h head x xs [] r) in
    (run, subst (IsRing (removed h x) head) (sym (append-nil xs)) ring)
removed-IsRing h head x xs (y ∷ ys) r =
    let (run, ring) =
      remove-IsRing h x y (ys ++ head ∷ xs) (IsRing-rotate h head x xs (y ∷ ys) r) in
    (run, IsRing-rotate (removed h x) y head ys xs ring)

-- Removing a node from the list of a head stores nothing through NULL, takes the node out of the
-- list and leaves the others in their order, and sets the links of the node to NULL.
pub vk_list_remove-IsRing :
    (h : Heap) (head x : ℕ) (xs ys : List ℕ)
    → IsRing h head (xs ++ x ∷ ys)
    → (h' : Heap) × (vk_list_remove h x ≡ some h')
      × IsRing h' head (xs ++ ys)
      × (h'.next x ≡ null)
      × (h'.prev x ≡ null)
vk_list_remove-IsRing h head x xs ys r =
    let (run, ring) = removed-IsRing h head x xs ys r in
    (removed h x, run, ring, ground (arith, ==-refl x), ground (arith, ==-refl x))
