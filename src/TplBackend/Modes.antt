-- ===== src/TplBackend/Modes.antt =====
-- The present modes of TPL: what src/wsi/surface.c lists, src/wsi/swapchain_tpl.c turns back.
use vulkan_wsi_tizen.Common.{
  ℕ, zero, suc, ◌≤◌, ◌<◌, ◌≡◌, refl, sym, ap, ◌∙◌, Bool, true, false, some, List, [], ◌∷◌, ◌++◌,
  arith, length, take, drop, min, get_elem?,
}
use vulkan_wsi_tizen.Enumerate.Results.{VkResult}
use vulkan_wsi_tizen.Surface.{
  PresentMode, immediate, mailbox, fifo, fifo_relaxed, TplModes, tpl_get_surface_present_modes,
}
use vulkan_wsi_tizen.Surface.PresentModes.{selected, tpl_table, tpl_present_modes-Enumerates}
use vulkan_wsi_tizen.TplBackend.{
  TplPresentMode, tpl_immediate, tpl_mailbox, tpl_fifo, tpl_fifo_relaxed, tpl_present_mode,
}

-- The bit of a mode in what TPL answers.
abbrev pub has_bit : TplModes → TplPresentMode → Bool
has_bit t tpl_immediate = t.has_immediate
has_bit t tpl_mailbox = t.has_mailbox
has_bit t tpl_fifo = t.has_fifo
has_bit t tpl_fifo_relaxed = t.has_fifo_relaxed

selected-get_elem? :
    (table : List (Bool × PresentMode)) (i : ℕ) (mode : PresentMode)
    → get_elem? (selected table) i ≡ some mode
    → (j : ℕ) × (get_elem? table j ≡ some (true, mode))
selected-get_elem? [] i mode at = absurd (cc at)
selected-get_elem? ((false, m) ∷ table) i mode at =
    let (j, there) = selected-get_elem? table i mode at in (suc j, there)
selected-get_elem? ((true, m) ∷ table) zero mode at =
    (0, (let same : m ≡ mode = cc at in ap (λ m. some (true, m)) same))
selected-get_elem? ((true, m) ∷ table) (suc i) mode at =
    let (j, there) = selected-get_elem? table i mode at in (suc j, there)

get_elem?-take-append :
    {A : Type 0} (k i : ℕ) (xs ys : List A)
    → i < k
    → k ≤ length xs
    → get_elem? (take k xs ++ ys) i ≡ get_elem? xs i
get_elem?-take-append zero i xs ys lt le = absurd (omega arith)
get_elem?-take-append (suc k) i [] ys lt le = absurd (omega arith)
get_elem?-take-append (suc k) zero (x ∷ xs) ys lt le = refl
get_elem?-take-append (suc k) (suc i) (x ∷ xs) ys lt le =
    get_elem?-take-append k i xs ys (omega arith) (omega arith)

-- A mode of the table is one whose bit is set.
table-has_bit :
    (t : TplModes) (j : ℕ) (mode : PresentMode)
    → get_elem? (tpl_table t) j ≡ some (true, mode)
    → (m : TplPresentMode) × (tpl_present_mode (some mode) ≡ some m) × (has_bit t m ≡ true)
unfolding tpl_present_mode
table-has_bit t zero mode at =
    let same : mode ≡ fifo = cc at in (tpl_fifo, ap (λ m. tpl_present_mode (some m)) same, cc at)
table-has_bit t (suc zero) mode at =
    let same : mode ≡ mailbox = cc at in
    (tpl_mailbox, ap (λ m. tpl_present_mode (some m)) same, cc at)
table-has_bit t (suc (suc zero)) mode at =
    let same : mode ≡ immediate = cc at in
    (tpl_immediate, ap (λ m. tpl_present_mode (some m)) same, cc at)
table-has_bit t (suc (suc (suc zero))) mode at =
    let same : mode ≡ fifo_relaxed = cc at in
    (tpl_fifo_relaxed, ap (λ m. tpl_present_mode (some m)) same, cc at)
table-has_bit t (suc (suc (suc (suc j)))) mode at = absurd (cc at)

-- Every mode that `vk_GetPhysicalDeviceSurfacePresentModesKHR` lists for a surface of TPL, a swapchain
-- may ask for: `swapchain_tpl_init` turns it into a mode of TPL, the one whose bit made it listed.
pub listed-has_bit :
    (t : TplModes) (n i : ℕ) (dst : List PresentMode) (res : VkResult) (count : ℕ)
    (modes : List PresentMode) (mode : PresentMode)
    → min n (length (selected (tpl_table t))) ≤ length dst
    → tpl_get_surface_present_modes (some t) n (some dst) ≡ some (res, count, some modes)
    → i < count
    → get_elem? modes i ≡ some mode
    → (m : TplPresentMode) × (tpl_present_mode (some mode) ≡ some m) × (has_bit t m ≡ true)
listed-has_bit t n i dst res count modes mode room run lt at =
    let xs = selected (tpl_table t) in
    let k = min n (length xs) in
    let filled = (tpl_present_modes-Enumerates t).fills n dst room in
    let counts : count ≡ k = cc (filled, run) in
    let listed : modes ≡ take k xs ++ drop k dst = cc (filled, run) in
    let there = get_elem?-take-append k i xs (drop k dst) (omega arith) (omega arith) in
    let (j, entry) =
      selected-get_elem? (tpl_table t) i mode
        (sym there ∙ ap (λ ms. get_elem? ms i) (sym listed) ∙ at) in
    table-has_bit t j mode entry
