-- ===== src/TdmBackend/Fences.antt =====
-- The increases of the timelines of src/wsi/swapchain_tdm.c, and the fences for them, in a run of a
-- swapchain.
use vulkan_wsi_tizen.Common.{ℕ, ◌+◌, ◌≡◌, ap, false, none, some, []}
use mathlib.Core.Path.{subst}
use vulkan_wsi_tizen.TdmBackend.{UserData}
use vulkan_wsi_tizen.TdmBackend.Timelines.{
  IsStore, is_inc, is_shown, is_fence, is_front, Run, Step, acquire_step, present_step,
  callback_step, Reach, here, next, Balanced, Inv,
}
use vulkan_wsi_tizen.Common.Counting.{count, indicator}
use vulkan_wsi_tizen.TdmBackend.Balance.{Balanced-eq, callback-Inv, present-Inv}
use vulkan_wsi_tizen.TdmBackend.Acquire.{acquire-Inv}

module _ {S : Type 0} (u : UserData S) (laws : IsStore u) where
  -- A swapchain that has just been made.
  pub record IsFresh (r : Run S) : Type 0 where
    pub no_timeline : (q : ℕ) → u.get_timeline r.chain.store q ≡ none
    pub no_front : r.chain.front_buffer ≡ none
    pub no_log : r.log ≡ []
    pub none_held : (q : ℕ) → r.held q ≡ false

  IsFresh-Inv : (r : Run S) → IsFresh r → Inv u r
  IsFresh-Inv r f q =
      let front = ap (λ x. is_front x q) f.no_front in
      let inc = ap (count (is_inc q)) f.no_log in
      let show = ap (count (is_shown q)) f.no_log in
      let fence = ap (count (is_fence q)) f.no_log in
      Balanced-eq u r q none (f.no_timeline q) (inc, show, fence, front, f.none_held q)

  Step-Inv : (r r' : Run S) → Step u r r' → Inv u r → Inv u r'
  Step-Inv r r' (acquire_step a limit surface timeline fence t events new free run) inv =
      acquire-Inv u laws r a limit surface timeline fence t events new free run inv
  Step-Inv r r' (present_step a sync_fd surface t events given holds run) inv =
      present-Inv u r a sync_fd surface t events given holds run inv
  Step-Inv r r' (callback_step t events run) inv = callback-Inv u r t events run inv

  Reach-Inv : (r r' : Run S) → Reach u r r' → Inv u r → Inv u r'
  Reach-Inv r r' here inv = inv
  Reach-Inv r r' (next {s} path step) inv = Step-Inv s r' step (Reach-Inv r s path inv)

  -- Where TBM keeps data under the keys that were added: in a run from a new swapchain of acquires with
  -- fences, presents and commit callbacks that succeed, in any order, where the application acquires
  -- buffers that it does not hold and presents those that it holds, and every new timeline is made, a
  -- buffer that has a timeline has been set on the layer as often as its timeline has been increased,
  -- and once more if it is in front now; and as many fences have been made for it as it was set, one
  -- less unless the application holds it.
  pub Reach-balanced :
      (r0 r : Run S) (surface timeline : ℕ)
      → IsFresh r0
      → Reach u r0 r
      → u.get_timeline r.chain.store surface ≡ some (some timeline)
      → (count (is_inc surface) r.log + indicator (is_front r.chain.front_buffer surface)
          ≡ count (is_shown surface) r.log)
        × (count (is_fence surface) r.log + 1
            ≡ count (is_shown surface) r.log + indicator (r.held surface))
  Reach-balanced r0 r surface timeline fresh path has =
      subst (Balanced u r surface) has (Reach-Inv r0 r path (IsFresh-Inv r0 fresh) surface)
