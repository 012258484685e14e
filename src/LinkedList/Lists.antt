-- ===== src/LinkedList/Lists.antt =====
-- The ring of `vk_list_t` of src/utils/utils.h as a list: insertion at any node, the test for an empty
-- list, and a removal after an insertion.
use vulkan_wsi_tizen.Common.{
  ℕ, ◌≡◌, ◌≢◌, refl, sym, ap, ◌∙◌, true, false, some, List, [], ◌∷◌, ◌++◌, arith, ◌==◌, ==_iff,
  ◌>>=◌, Bool-cases, inl, inr, ◌↔◌,
}
use vulkan_wsi_tizen.LinkedList.{
  Heap, null, set, vk_list_insert, vk_list_remove, vk_list_init, store_prev, store_next, store_item,
  vk_list_empty,
}
use vulkan_wsi_tizen.LinkedList.Ring.{contains, IsRing, contains-append, ==-refl}
use vulkan_wsi_tizen.LinkedList.Operations.{==-off, inserted, insert-IsRing}
use vulkan_wsi_tizen.LinkedList.Rotation.{IsRing-rotate}
use vulkan_wsi_tizen.LinkedList.Removal.{removed, removed-IsRing}

-- Inserting a new node behind a node of the list stores nothing through NULL, and puts it there.
pub vk_list_insert-IsRing :
    (h : Heap) (head x elm : ℕ) (xs ys : List ℕ)
    → IsRing h head (xs ++ x ∷ ys)
    → contains elm (head ∷ (xs ++ x ∷ ys)) ≡ false
    → elm ≢ null
    → (h' : Heap) × (vk_list_insert h x elm ≡ some h') × IsRing h' head (xs ++ x ∷ elm ∷ ys)
vk_list_insert-IsRing h head x elm xs ys r fresh there =
    let (run, ring) =
      insert-IsRing h x elm (ys ++ head ∷ xs) (IsRing-rotate h head x xs ys r)
        (ground (
          arith,
          fresh,
          contains-append elm (head ∷ xs) (x ∷ ys),
          contains-append elm (x ∷ ys) (head ∷ xs),
        ))
        there in
    (inserted h x elm, run, IsRing-rotate (inserted h x elm) x head (elm ∷ ys) xs ring)

-- The node behind a head leads back to it.
next-back : (h : Heap) (list : ℕ) (xs : List ℕ) → IsRing h list xs → h.prev (h.next list) ≡ list
next-back h list [] r = let (fore, back) = r.linked in ap h.prev fore ∙ back
next-back h list (x ∷ xs) r = let (fore, back, rest) = r.linked in ap h.prev fore ∙ back

-- The fields after the two calls, where `p` and `n` are the neighbours of the new node.
restored-next :
    (h : Heap) (list elm a p n : ℕ)
    → p ≡ list
    → n ≡ h.next list
    → (elm == a) ≡ false
    → set (set (inserted h list elm).next p n) elm null a ≡ h.next a
restored-next h list elm a p n p_is n_is other = elim (Bool-cases (list == a)) [
  | inl same ↦
      let e = ap h.next ((==_iff list a).0 same) in
      let met = ap (λ y. y == a) p_is ∙ same in ground (arith, met, n_is ∙ e)
  | inr off ↦ let apart = ap (λ y. y == a) p_is ∙ off in ground (arith, apart)
]

restored-prev :
    (h : Heap) (list elm a p n : ℕ)
    → p ≡ list
    → n ≡ h.next list
    → h.prev (h.next list) ≡ list
    → (elm == a) ≡ false
    → set (set (inserted h list elm).prev n p) elm null a ≡ h.prev a
restored-prev h list elm a p n p_is n_is back other = elim (Bool-cases (h.next list == a)) [
  | inl same ↦
      let e = ap h.prev ((==_iff (h.next list) a).0 same) in
      let met = ap (λ y. y == a) n_is ∙ same in
      let value = p_is ∙ sym back ∙ e in ground (arith, met, value)
  | inr off ↦ let apart = ap (λ y. y == a) n_is ∙ off in ground (arith, apart)
]

-- Inserting a new node behind the head, and then removing it, stores nothing through NULL, leaves
-- the same list, and gives back every field of every other node.
pub remove-insert :
    (h : Heap) (list elm a : ℕ) (xs : List ℕ)
    → IsRing h list xs
    → contains elm (list ∷ xs) ≡ false
    → elm ≢ null
    → a ≢ elm
    → (h' : Heap) × ((vk_list_insert h list elm >>= λ h1. vk_list_remove h1 elm) ≡ some h')
      × IsRing h' list xs
      × (h'.next a ≡ h.next a)
      × (h'.prev a ≡ h.prev a)
      × (h'.item a ≡ h.item a)
remove-insert h list elm a xs r fresh there other =
    let (put_in, ring) = insert-IsRing h list elm xs r fresh there in
    let h1 = inserted h list elm in
    let (fore, before, rest) = ring.linked in
    let off : (elm == list) ≡ false = ground (arith, fresh) in
    let after : h1.next elm ≡ h.next list = ground (arith, ==-off elm list off, ==-refl elm) in
    let apart : (elm == a) ≡ false = ground (arith, ==_iff elm a, other) in
    let (taken_out, ring') = removed-IsRing h1 list elm [] xs ring in
    (
      removed h1 elm,
      ap (λ o. o >>= λ x. vk_list_remove x elm) put_in ∙ taken_out,
      ring',
      restored-next h list elm a (h1.prev elm) (h1.next elm) before after apart,
      restored-prev h list elm a (h1.prev elm) (h1.next elm) before after (next-back h list xs r)
          apart,
      refl,
    )

-- A head is told to be empty if no other node is in its ring.
pub vk_list_empty_iff :
    (h : Heap) (list : ℕ) (xs : List ℕ)
    → IsRing h list xs
    → (vk_list_empty h list ≡ true) ↔ (xs ≡ [])
unfolding vk_list_empty
vk_list_empty_iff h list [] r =
    let alone = ap (λ a. a == list) r.linked.0 ∙ ==-refl list in (λ _. refl, λ _. alone)
vk_list_empty_iff h list (x ∷ xs) r =
    let out = ap (λ a. a == list) r.linked.0 ∙ ==-off list x (ground (arith, r.apart)) in
    (λ empty. absurd (cc (out, empty)), λ same. absurd (cc same))

-- A new head is alone in its ring.
pub vk_list_init-IsRing :
    (h : Heap) (list : ℕ)
    → list ≢ null
    → (h' : Heap) × (vk_list_init h list ≡ some h') × IsRing h' list []
unfolding vk_list_init store_prev store_next store_item
vk_list_init-IsRing h list there =
    let ok : (list == null) ≡ false = ground (arith, ==_iff list null, there) in
    (
      record {
        prev = set h.prev list list;
        next = set h.next list list;
        item = set h.item list null;
      },
      ground arith,
      record {
        linked = (ground (arith, ==-refl list), ground (arith, ==-refl list));
        apart = refl;
        valid = ground (arith, ==-off list null ok);
      },
    )
