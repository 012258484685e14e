-- ===== src/LinkedList/Operations.antt =====
-- What the operations on `vk_list_t` of src/utils/utils.h do to the list that a ring stands for.
use vulkan_wsi_tizen.Common.{
  ℕ, ◌≡◌, ◌≢◌, ap, ◌∙◌, false, some, List, [], ◌∷◌, ◌++◌, arith, ◌==◌, ==_iff,
}
use vulkan_wsi_tizen.LinkedList.{Heap, null, set, store_prev, store_next, vk_list_insert}
use vulkan_wsi_tizen.LinkedList.Ring.{
  Seg, contains, IsRing, Seg-same, contains-append, ==-refl, contains-neq,
}

pub ==-off : (a b : ℕ) → (a == b) ≡ false → (b == a) ≡ false
==-off a b off = ground (arith, ==_iff a b, ==_iff b a)

-- The heap after an insertion.
abbrev pub inserted : Heap → ℕ → ℕ → Heap
inserted h list elm = record h {
  prev = set (set h.prev elm list) (h.next list) elm;
  next = set (set h.next elm (h.next list)) list elm;
}

-- Where the head leads.
pub next-valid :
    (h : Heap) (list : ℕ) (xs : List ℕ) → IsRing h list xs → (h.next list == null) ≡ false
next-valid h list [] r = ap (λ a. a == null) r.linked.0 ∙ ==-off null list (ground (arith, r.valid))
next-valid h list (x ∷ xs) r =
    ap (λ a. a == null) r.linked.0 ∙ ==-off null x (ground (arith, r.valid))

insert-run :
    (h : Heap) (list elm : ℕ)
    → (list == null) ≡ false
    → (elm == null) ≡ false
    → (h.next list == null) ≡ false
    → (elm == list) ≡ false
    → vk_list_insert h list elm ≡ some (inserted h list elm)
unfolding vk_list_insert store_prev store_next
insert-run h list elm list_ok elm_ok next_ok apart =
    ground (arith, ==_iff elm list, ==_iff list elm, ==_iff elm elm)

insert-Seg :
    (h : Heap) (list elm : ℕ) (xs : List ℕ)
    → IsRing h list xs
    → contains elm (list ∷ xs) ≡ false
    → Seg (inserted h list elm) list (elm ∷ xs) list
insert-Seg h list elm [] r fresh =
    let (fore, back) = r.linked in
    let off : (elm == list) ≡ false = ground (arith, fresh) in
    let off' = ==-off elm list off in
    let next_off = ap (λ a. a == elm) fore ∙ off' in
    let reached = ap (λ a. a == list) fore ∙ ==-refl list in
    (
      ground (arith, ==-refl list),
      ground (arith, ==-refl elm, next_off),
      (ground (arith, ==-refl elm, off', fore), ground (arith, reached)),
    )
insert-Seg h list elm (x ∷ xs) r fresh =
    let (fore, back, rest) = r.linked in
    let off : (elm == list) ≡ false = ground (arith, fresh) in
    let off' = ==-off elm list off in
    let elm_x : (x == elm) ≡ false = ==-off elm x (ground (arith, fresh)) in
    let next_off = ap (λ a. a == elm) fore ∙ elm_x in
    let reached = ap (λ a. a == x) fore ∙ ==-refl x in
    let list_out : contains list (x ∷ xs) ≡ false = ground (arith, r.apart) in
    let elm_out : contains elm (x ∷ xs) ≡ false = ground (arith, fresh) in
    let elm_out' : contains elm (xs ++ list ∷ []) ≡ false =
      ground (arith, fresh, contains-append elm xs (list ∷ [])) in
    let x_list : (x == list) ≡ false = ==-off list x (ground (arith, r.apart)) in
    let x_out : contains x (xs ++ list ∷ []) ≡ false =
      ground (arith, r.apart, x_list, contains-append x xs (list ∷ [])) in
    (
      ground (arith, ==-refl list),
      ground (arith, ==-refl elm, next_off),
      (
        ground (arith, ==-refl elm, off', fore),
        ground (arith, reached),
        Seg-same h (inserted h list elm) x list xs
            (λ a at. ground (
              arith,
              contains-neq a list (x ∷ xs) at list_out,
              contains-neq a elm (x ∷ xs) at elm_out,
            ))
            (λ a at. ground (
              arith,
              ap (λ b. b == a) fore ∙ contains-neq a x (xs ++ list ∷ []) at x_out,
              contains-neq a elm (xs ++ list ∷ []) at elm_out',
            ))
            rest,
      ),
    )

-- An insertion behind the node from which a ring is looked at.
pub insert-IsRing :
    (h : Heap) (list elm : ℕ) (xs : List ℕ)
    → IsRing h list xs
    → contains elm (list ∷ xs) ≡ false
    → elm ≢ null
    → (vk_list_insert h list elm ≡ some (inserted h list elm))
      × IsRing (inserted h list elm) list (elm ∷ xs)
insert-IsRing h list elm xs r fresh there =
    let off : (elm == list) ≡ false = ground (arith, fresh) in
    let list_ok = ==-off null list (ground (arith, r.valid)) in
    let elm_ok : (elm == null) ≡ false = ground (arith, there) in
    (
      insert-run h list elm list_ok elm_ok (next-valid h list xs r) off,
      record {
        linked = insert-Seg h list elm xs r fresh;
        apart = ground (arith, r.apart, fresh, ==-off elm list off);
        valid = ground (arith, r.valid, ==-off elm null elm_ok);
      },
    )
