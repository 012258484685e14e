-- ===== src/LinkedList/Ring.antt =====
-- Rings of nodes: the list that a head of `vk_list_t` in src/utils/utils.h stands for.
use vulkan_wsi_tizen.Common.{
  ℕ, ◌≡◌, refl, ap, ◌∙◌, Bool, true, false, ◌&&◌, ◌||◌, not, List, [], ◌∷◌, ◌++◌, arith, ◌==◌,
  ==_iff, Bool-cases, inl, inr,
}
use vulkan_wsi_tizen.LinkedList.{Heap, null}

-- From `p` by the nodes `xs` to `q`, linked in both directions.
abbrev pub Seg : Heap → ℕ → List ℕ → ℕ → Type 0
Seg h p [] q = (h.next p ≡ q) × (h.prev q ≡ p)
Seg h p (x ∷ xs) q = (h.next p ≡ x) × (h.prev x ≡ p) × Seg h x xs q

abbrev pub contains : ℕ → List ℕ → Bool
contains a [] = false
contains a (x ∷ xs) = a == x || contains a xs

abbrev pub distinct : List ℕ → Bool
distinct [] = true
distinct (x ∷ xs) = not (contains x xs) && distinct xs

-- The head stands for the list `xs` of the other nodes of its ring; they all differ, and none is NULL.
pub record IsRing (h : Heap) (head : ℕ) (xs : List ℕ) : Type 0 where
  pub linked : Seg h head xs head
  pub apart : distinct (head ∷ xs) ≡ true
  pub valid : contains null (head ∷ xs) ≡ false

-- Two heaps have the same links from and to these nodes.
abbrev pub SameNext : Heap → Heap → List ℕ → Type 0
SameNext h h' xs = (a : ℕ) → contains a xs ≡ true → h'.next a ≡ h.next a

abbrev pub SamePrev : Heap → Heap → List ℕ → Type 0
SamePrev h h' xs = (a : ℕ) → contains a xs ≡ true → h'.prev a ≡ h.prev a

pub ==-refl : (a : ℕ) → (a == a) ≡ true
==-refl a = ground (arith, ==_iff a a)

pub Seg-same :
    (h h' : Heap) (p q : ℕ) (xs : List ℕ)
    → SameNext h h' (p ∷ xs)
    → SamePrev h h' (xs ++ q ∷ [])
    → Seg h p xs q
    → Seg h' p xs q
Seg-same h h' p q [] nexts prevs (fore, back) =
    (nexts p (ground (arith, ==-refl p)) ∙ fore, prevs q (ground (arith, ==-refl q)) ∙ back)
Seg-same h h' p q (x ∷ xs) nexts prevs (fore, back, rest) = (
  nexts p (ground (arith, ==-refl p)) ∙ fore,
  prevs x (ground (arith, ==-refl x)) ∙ back,
  Seg-same h h' x q xs (λ a at. nexts a (ground arith)) (λ a at. prevs a (ground arith)) rest,
)

pub contains-append :
    (a : ℕ) (xs ys : List ℕ) → contains a (xs ++ ys) ≡ (contains a xs || contains a ys)
contains-append a [] ys = refl
contains-append a (x ∷ xs) ys = ground (arith, contains-append a xs ys)

-- A node that is in a list differs from one that is not.
pub contains-neq :
    (a b : ℕ) (xs : List ℕ) → contains a xs ≡ true → contains b xs ≡ false → (b == a) ≡ false
contains-neq a b xs inside outside = elim (Bool-cases (b == a)) [
  | inr off ↦ off
  | inl same ↦
      let equal = (==_iff b a).0 same in
      absurd (cc (ap (λ x. contains x xs) equal, inside, outside))
]
