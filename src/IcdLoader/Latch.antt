-- ===== src/IcdLoader/Latch.antt =====
-- `vk_get_physical_device` of src/wsi/icd.c along the calls of a program.
use vulkan_wsi_tizen.Common.{
  ℕ, ◌≡◌, ◌≢◌, refl, ap, true, List, [], ◌∷◌, map, arith, ◌==◌, replicate, zero, suc, ◌++◌,
}
use vulkan_wsi_tizen.IcdLoader.{vk_get_physical_device, device_answers}

latched-answers :
    (p : ℕ) (calls : List ℕ) → p ≢ 0 → device_answers p calls ≡ map (λ q. p == q) calls
unfolding device_answers vk_get_physical_device
latched-answers p [] there = refl
latched-answers p (q ∷ calls) there = let rest = latched-answers p calls there in ground arith

-- From the state that `module_init` leaves, the first handle that is not null fixes the device:
-- null handles before it are answered, and behind it a call is answered by the one device if it has
-- the same handle and by `NULL` if it has any other one, whatever the order of the calls.
pub device_answers-latch :
    (n p : ℕ) (calls : List ℕ)
    → p ≢ 0
    → device_answers 0 (replicate n 0 ++ p ∷ calls)
      ≡ replicate n true ++ true ∷ map (λ q. p == q) calls
unfolding device_answers vk_get_physical_device
device_answers-latch zero p calls there = ground (arith, latched-answers p calls there)
device_answers-latch (suc n) p calls there =
    ap (λ answers. true ∷ answers) (device_answers-latch n p calls there)
