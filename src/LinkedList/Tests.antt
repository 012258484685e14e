-- ===== src/LinkedList/Tests.antt =====
-- The ring of `vk_list_t` of src/utils/utils.h at a head with two nodes.
use vulkan_wsi_tizen.Common.{◌≡◌, refl, some, [], ◌∷◌, arith, ◌==◌, if◌then◌else◌, ◌>>=◌}
use vulkan_wsi_tizen.LinkedList.{Heap, vk_list_insert, vk_list_remove}
use vulkan_wsi_tizen.LinkedList.Ring.{IsRing}
use vulkan_wsi_tizen.LinkedList.Lists.{remove-insert}

-- The head 1, and the nodes 2 and 3.
abbrev heap : Heap
heap = record {
  prev = λ a. if a == 1 then 3 else if a == 2 then 1 else 2;
  next = λ a. if a == 1 then 2 else if a == 2 then 3 else 1;
  item = λ a. 0;
}

heap-IsRing : IsRing heap 1 (2 ∷ 3 ∷ [])
heap-IsRing = record {
  linked = (refl, refl, (refl, refl, (refl, refl)));
  apart = refl;
  valid = refl;
}

remove-insert_example :
    (h' : Heap) × ((vk_list_insert heap 1 4 >>= λ h1. vk_list_remove h1 4) ≡ some h')
    × IsRing h' 1 (2 ∷ 3 ∷ [])
    × (h'.next 2 ≡ heap.next 2)
    × (h'.prev 2 ≡ heap.prev 2)
    × (h'.item 2 ≡ heap.item 2)
remove-insert_example =
    remove-insert heap 1 4 2 (2 ∷ 3 ∷ []) heap-IsRing refl (omega arith) (omega arith)
