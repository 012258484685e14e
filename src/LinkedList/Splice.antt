-- ===== src/LinkedList/Splice.antt =====
-- What `vk_list_insert_list` of src/utils/utils.h does to the list that a ring stands for.
use vulkan_wsi_tizen.Common.{
  ℕ, ◌≡◌, refl, ap, ◌∙◌, true, false, some, List, [], ◌∷◌, ◌++◌, arith, ◌==◌,
}
use vulkan_wsi_tizen.LinkedList.{
  Heap, null, set, store_prev, store_next, vk_list_empty, vk_list_insert_list,
}
use vulkan_wsi_tizen.LinkedList.Ring.{
  Seg, contains, distinct, IsRing, contains-append, contains-neq, ==-refl, Seg-same,
}
use vulkan_wsi_tizen.LinkedList.Operations.{==-off, next-valid}
use vulkan_wsi_tizen.LinkedList.Removal.{last-in}
use vulkan_wsi_tizen.LinkedList.Rotation.{distinct-apart, distinct-swap, distinct-move}

-- The heap after a list that is not empty was put in.
abbrev pub spliced : Heap → (list other : ℕ) → Heap
spliced h list other = record h {
  prev = set (set h.prev (h.next other) list) (h.next list) (h.prev other);
  next = set (set h.next (h.prev other) (h.next list)) list (h.next other);
}

splice-run :
    (h : Heap) (list other : ℕ)
    → (h.next other == other) ≡ false
    → (h.prev other == other) ≡ false
    → (h.prev other == list) ≡ false
    → (h.next other == null) ≡ false
    → (h.prev other == null) ≡ false
    → (h.next list == null) ≡ false
    → (list == null) ≡ false
    → vk_list_insert_list h list other ≡ some (spliced h list other)
unfolding vk_list_insert_list vk_list_empty store_prev store_next
splice-run h list other n_o p_o p_l n_ok p_ok l_ok list_ok = ground arith

-- From a node of the other list on, the links lead through its rest and the old list back to the head.
splice-Seg :
    (h : Heap) (list other y m b : ℕ) (xs zs : List ℕ)
    → h.next other ≡ y
    → h.next list ≡ m
    → Seg h list xs list
    → distinct (list ∷ xs) ≡ true
    → contains y (xs ++ list ∷ []) ≡ false
    → contains (h.prev other) (list ∷ xs) ≡ false
    → contains list (b ∷ zs) ≡ false
    → contains m (b ∷ zs) ≡ false
    → contains y zs ≡ false
    → distinct (b ∷ zs) ≡ true
    → Seg h b zs other
    → Seg (spliced h list other) b (zs ++ xs) list
splice-Seg h list other y m b [] [] leads starts (lf, lb) d y_out l_out list_b m_b y_b apart
      (fore, back) =
    let at_b = ap (λ a. a == b) back ∙ ==-refl b in
    let at_list = ap (λ a. a == list) lf ∙ ==-refl list in
    (ground (arith, at_b, lf, list_b), ground (arith, at_list, back))
splice-Seg h list other y m b (x ∷ xs) [] leads starts (lf, lb, rest) d y_out l_out list_b m_b y_b
      apart (fore, back) =
    let at_b = ap (λ a. a == b) back ∙ ==-refl b in
    let at_x = ap (λ a. a == x) lf ∙ ==-refl x in
    let list_out : contains list (x ∷ xs) ≡ false = ground (arith, d) in
    let l_out' : contains (h.prev other) (x ∷ xs) ≡ false = ground (arith, l_out) in
    let x_list = ==-off list x (ground (arith, d)) in
    let x_out : contains x (xs ++ list ∷ []) ≡ false =
      ground (arith, d, x_list, contains-append x xs (list ∷ [])) in
    let y_out' : contains y (xs ++ list ∷ []) ≡ false = ground (arith, y_out) in
    (
      ground (arith, at_b, lf, list_b),
      ground (arith, at_x, back),
      Seg-same h (spliced h list other) x list xs
          (λ a at. ground (
            arith,
            contains-neq a list (x ∷ xs) at list_out,
            contains-neq a (h.prev other) (x ∷ xs) at l_out',
          ))
          (λ a at. ground (
            arith,
            ap (λ c. c == a) lf ∙ contains-neq a x (xs ++ list ∷ []) at x_out,
            ap (λ c. c == a) leads ∙ contains-neq a y (xs ++ list ∷ []) at y_out',
          ))
          rest,
    )
splice-Seg h list other y m b xs (z ∷ zs) leads starts linked d y_out l_out list_b m_b y_b apart
      (fore, back, rest) =
    let last = last-in h z other zs rest in
    let prev_b =
      ==-off b (h.prev other)
        (contains-neq (h.prev other) b (z ∷ zs) last (ground (arith, apart))) in
    let next_z : (h.next other == z) ≡ false = ap (λ a. a == z) leads ∙ ground (arith, y_b) in
    let m_z : (h.next list == z) ≡ false = ap (λ a. a == z) starts ∙ ground (arith, m_b) in
    (
      ground (arith, prev_b, fore, list_b),
      ground (arith, next_z, m_z, back),
      splice-Seg h list other y m z xs zs leads starts linked d y_out l_out (ground (arith, list_b))
          (ground (arith, m_b)) (ground (arith, y_b)) (ground (arith, apart)) rest,
    )

-- The head leads to itself or to a node of its list.
next-in :
    (h : Heap) (list : ℕ) (xs : List ℕ)
    → IsRing h list xs
    → contains (h.next list) (list ∷ xs) ≡ true
next-in h list [] r = ground (arith, ap (λ a. a == list) r.linked.0 ∙ ==-refl list)
next-in h list (x ∷ xs) r = ground (arith, ap (λ a. a == x) r.linked.0 ∙ ==-refl x)

-- Putting the nodes of another list, whose nodes all differ from those of the first, behind the
-- head of the first: nothing is stored through NULL, and the head stands for the other list and
-- then its own.
pub vk_list_insert_list-IsRing :
    (h : Heap) (list other y : ℕ) (xs ys : List ℕ)
    → IsRing h list xs
    → IsRing h other (y ∷ ys)
    → distinct ((list ∷ xs) ++ y ∷ ys) ≡ true
    → (h' : Heap) × (vk_list_insert_list h list other ≡ some h') × IsRing h' list ((y ∷ ys) ++ xs)
vk_list_insert_list-IsRing h list other y xs ys r o apart =
    let (fore, back, rest) = o.linked in
    let last = last-in h y other ys rest in
    let out : (a : ℕ) → contains a (y ∷ ys) ≡ true → contains a (list ∷ xs) ≡ false =
      λ a at. distinct-apart a (list ∷ xs) (y ∷ ys) apart at in
    let within : (a : ℕ) → contains a (list ∷ xs) ≡ true → contains a (y ∷ ys) ≡ false =
      λ a at. distinct-apart a (y ∷ ys) (list ∷ xs) (distinct-swap (list ∷ xs) (y ∷ ys) apart) at in
    let y_out = out y (ground (arith, ==-refl y)) in
    let list_in = within list (ground (arith, ==-refl list)) in
    let m_in = within (h.next list) (next-in h list xs r) in
    let list_ok = ==-off null list (ground (arith, r.valid)) in
    let next_ok = ap (λ a. a == null) fore ∙ ==-off null y (ground (arith, o.valid)) in
    let prev_ok : (h.prev other == null) ≡ false =
      ==-off null (h.prev other)
        (contains-neq (h.prev other) null (y ∷ ys) last (ground (arith, o.valid))) in
    let prev_other : (h.prev other == other) ≡ false =
      ==-off other (h.prev other)
        (contains-neq (h.prev other) other (y ∷ ys) last (ground (arith, o.apart))) in
    let next_other = ap (λ a. a == other) fore ∙ ==-off other y (ground (arith, o.apart)) in
    let prev_list : (h.prev other == list) ≡ false =
      ==-off list (h.prev other) (contains-neq (h.prev other) list (y ∷ ys) last list_in) in
    let next_y = ap (λ a. a == y) fore ∙ ==-refl y in
    let m_y : (h.next list == y) ≡ false = ground (arith, m_in) in
    let fields =
      splice-Seg h list other y (h.next list) y xs ys fore refl r.linked r.apart
        (ground (arith, y_out, contains-append y xs (list ∷ []))) (out (h.prev other) last) list_in
        m_in (ground (arith, o.apart)) (ground (arith, o.apart)) rest in
    (
      spliced h list other,
      splice-run h list other next_other prev_other prev_list next_ok prev_ok
          (next-valid h list xs r) list_ok,
      record {
        linked = (ground (arith, ==-refl list, fore), ground (arith, next_y, m_y), fields);
        apart = distinct-move list xs (y ∷ ys) apart;
        valid = ground (arith, r.valid, o.valid, contains-append null (y ∷ ys) xs);
      },
    )
