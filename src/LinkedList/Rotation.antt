-- ===== src/LinkedList/Rotation.antt =====
-- A ring of `vk_list_t` of src/utils/utils.h is a ring from each of its nodes.
use vulkan_wsi_tizen.Common.{
  ℕ, ◌≤◌, ◌≡◌, refl, ap, ◌∙◌, true, false, List, [], ◌∷◌, ◌++◌, arith, ◌==◌, ==_iff, Bool-cases,
  inl, inr,
}
use vulkan_wsi_tizen.Common.Counting.{count, count-append}
use vulkan_wsi_tizen.LinkedList.{Heap, null}
use vulkan_wsi_tizen.LinkedList.Ring.{Seg, contains, distinct, IsRing, contains-append, ==-refl}

-- A segment through a node is two segments.
pub Seg-split :
    (h : Heap) (p b q : ℕ) (xs ys : List ℕ) → Seg h p (xs ++ b ∷ ys) q → Seg h p xs b × Seg h b ys q
Seg-split h p b q [] ys (fore, back, rest) = ((fore, back), rest)
Seg-split h p b q (x ∷ xs) ys (fore, back, rest) =
    let (first, last) = Seg-split h x b q xs ys rest in ((fore, back, first), last)

pub Seg-join :
    (h : Heap) (p b q : ℕ) (xs ys : List ℕ) → Seg h p xs b → Seg h b ys q → Seg h p (xs ++ b ∷ ys) q
Seg-join h p b q [] ys (fore, back) last = (fore, back, last)
Seg-join h p b q (x ∷ xs) ys (fore, back, first) last =
    (fore, back, Seg-join h x b q xs ys first last)

contains-count : (a : ℕ) (xs : List ℕ) → contains a xs ≡ false → count (λ x. a == x) xs ≡ 0
contains-count a [] out = refl
contains-count a (x ∷ xs) out = ground (arith, contains-count a xs)

count-contains : (a : ℕ) (xs : List ℕ) → count (λ x. a == x) xs ≡ 0 → contains a xs ≡ false
count-contains a [] zero_times = refl
count-contains a (x ∷ xs) zero_times = ground (arith, count-contains a xs)

contains-once : (a : ℕ) (xs : List ℕ) → contains a xs ≡ true → 1 ≤ count (λ x. a == x) xs
contains-once a [] inside = absurd (cc inside)
contains-once a (x ∷ xs) inside = ground (arith, contains-once a xs)

distinct-count : (a : ℕ) (xs : List ℕ) → distinct xs ≡ true → count (λ x. a == x) xs ≤ 1
distinct-count a [] apart = omega arith
distinct-count a (x ∷ xs) apart = elim (Bool-cases (a == x)) [
  | inr off ↦ ground (arith, distinct-count a xs)
  | inl same ↦
      let e = (==_iff a x).0 same in
      let out : contains a xs ≡ false = ap (λ y. contains y xs) e ∙ ground arith in
      ground (arith, contains-count a xs out)
]

count-distinct : (xs : List ℕ) → ((a : ℕ) → count (λ x. a == x) xs ≤ 1) → distinct xs ≡ true
count-distinct [] once = refl
count-distinct (x ∷ xs) once =
    let out = count-contains x xs (ground (arith, once x, ==-refl x)) in
    let rest = count-distinct xs (λ a. ground (arith, once a)) in ground (arith, out, rest)

pub distinct-swap : (xs ys : List ℕ) → distinct (xs ++ ys) ≡ true → distinct (ys ++ xs) ≡ true
distinct-swap xs ys apart = count-distinct (ys ++ xs) (λ a. omega (
  arith,
  distinct-count a (xs ++ ys) apart,
  count-append (λ x. a == x) xs ys,
  count-append (λ x. a == x) ys xs,
))

-- A node of the second part is not in the first.
pub distinct-apart :
    (a : ℕ) (xs ys : List ℕ)
    → distinct (xs ++ ys) ≡ true
    → contains a ys ≡ true
    → contains a xs ≡ false
distinct-apart a xs ys apart inside = elim (Bool-cases (contains a xs)) [
  | inr out ↦ out
  | inl also ↦
      let once = distinct-count a (xs ++ ys) apart in
      let both = count-append (λ x. a == x) xs ys in
      let first = contains-once a xs also in
      let second = contains-once a ys inside in absurd (omega (arith, once, both, first, second))
]

pub distinct-move :
    (a : ℕ) (xs ys : List ℕ) → distinct ((a ∷ xs) ++ ys) ≡ true → distinct (a ∷ (ys ++ xs)) ≡ true
distinct-move a xs ys apart = count-distinct (a ∷ (ys ++ xs)) (λ c. omega (
  arith,
  distinct-count c ((a ∷ xs) ++ ys) apart,
  count-append (λ x. c == x) xs ys,
  count-append (λ x. c == x) ys xs,
))

pub IsRing-rotate :
    (h : Heap) (a b : ℕ) (xs ys : List ℕ) → IsRing h a (xs ++ b ∷ ys) → IsRing h b (ys ++ a ∷ xs)
IsRing-rotate h a b xs ys r =
    let (first, last) = Seg-split h a b a xs ys r.linked in
    record {
      linked = Seg-join h b a b ys xs last first;
      apart = distinct-swap (a ∷ xs) (b ∷ ys) r.apart;
      valid = ground (
        arith,
        r.valid,
        contains-append null (a ∷ xs) (b ∷ ys),
        contains-append null (b ∷ ys) (a ∷ xs),
      );
    }
