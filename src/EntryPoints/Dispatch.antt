-- ===== src/EntryPoints/Dispatch.antt =====
-- How the three lookups of src/wsi/entry-points.c answer, and that they agree.
use vulkan_wsi_tizen.Common.{
  ℕ, ◌≡◌, ◌≢◌, refl, inl, inr, Bool, true, false, ◌&&◌, ◌||◌, not, none, some, arith, get_elem?,
  ◌==◌, if◌then◌else◌, Option-cases, zero, suc, List, [], ◌∷◌,
}
use Prim.Native.String.{String}
use vulkan_wsi_tizen.EntryPoints.{
  VkFunc, VkEntry, entry_points, get_entry_point, Proc, layer, address, Icd, call, is_global,
  is_device, is_get_instance_proc_addr, is_get_device_proc_addr, instance_proc,
  vk_get_instance_proc_addr, device_proc, vk_get_device_proc_addr, vk_icd_get_instance_proc_addr,
}
use vulkan_wsi_tizen.EntryPoints.Table.{get_entry_point_complete}

-- What the specification of Vulkan 1.0 lets an instance handle see: without an instance the global
-- functions and the two lookups, with one all but the global functions.
abbrev pub is_offered : ℕ → VkEntry → Bool
is_offered handle e =
    if is_global e.type
    then handle == 0
    else not (handle == 0) || (is_get_instance_proc_addr e.func || is_get_device_proc_addr e.func)

abbrev pub layer_or_null : Bool → VkFunc → Proc
layer_or_null shown f = if shown then layer f else address 0

instance_proc-offered :
    (handle : ℕ) (e : VkEntry)
    → is_global e.type && (is_get_instance_proc_addr e.func || is_get_device_proc_addr e.func)
      ≡ false
    → instance_proc handle e ≡ layer_or_null (is_offered handle e) e.func
unfolding instance_proc
instance_proc-offered handle e apart = ground arith

abbrev is_apart : VkEntry → Bool
is_apart e =
    not (is_global e.type && (is_get_instance_proc_addr e.func || is_get_device_proc_addr e.func))

abbrev are_apart : List VkEntry → Bool
are_apart [] = true
are_apart (e ∷ entries) = is_apart e && are_apart entries

are_apart-get_elem? :
    (entries : List VkEntry) (i : ℕ) (e : VkEntry)
    → are_apart entries ≡ true
    → get_elem? entries i ≡ some e
    → is_apart e ≡ true
are_apart-get_elem? [] i e apart found = cc
are_apart-get_elem? (x ∷ entries) zero e apart found = ground arith
are_apart-get_elem? (x ∷ entries) (suc i) e apart found =
    are_apart-get_elem? entries i e (ground arith) found

entry_points-apart : are_apart entry_points ≡ true
unfolding entry_points
entry_points-apart = refl

-- What the three lookups answer for the name of an entry of the table.
pub record Answers (icd : Icd) (e : VkEntry) : Type 0 where
  pub instance_proc_addr :
      (handle : ℕ)
      → vk_get_instance_proc_addr icd handle e.name
        ≡ some (layer_or_null (is_offered handle e) e.func)
  pub device_proc_addr :
      (device : ℕ)
      → vk_get_device_proc_addr icd device e.name
        ≡ some (layer_or_null (not (device == 0) && is_device e.type) e.func)
  pub icd_proc_addr : (handle : ℕ) → vk_icd_get_instance_proc_addr icd handle e.name ≡ layer e.func

-- For every entry of the table, and whatever the driver is: `vk_GetInstanceProcAddr` gives the
-- function of the entry if the handle may see it and `NULL` if not, `vk_GetDeviceProcAddr` gives it
-- for a device and an entry of that type only, and `vk_icdGetInstanceProcAddr` gives it always.
pub entry_points-Answers :
    (icd : Icd) (i : ℕ) (e : VkEntry) → get_elem? entry_points i ≡ some e → Answers icd e
unfolding vk_get_instance_proc_addr vk_get_device_proc_addr vk_icd_get_instance_proc_addr
    device_proc
entry_points-Answers icd i e found =
    let here = get_entry_point_complete i e found in
    let apart = are_apart-get_elem? entry_points i e entry_points-apart found in
    record {
      instance_proc_addr =
          λ handle. ground (arith, here, instance_proc-offered handle e (ground arith));
      device_proc_addr = λ device. ground (arith, here);
      icd_proc_addr = λ handle. ground (arith, here);
    }

-- A name that is not in the table goes to the driver: to its `vkGetInstanceProcAddr` for the handle,
-- to its `vkGetDeviceProcAddr` for the device, or to the driver's own entry point, with the handle and
-- the name as they came, where the driver has these functions.
pub get_entry_point-forwards :
    (icd : Icd) (handle device : ℕ) (name : String)
    → get_entry_point name ≡ none
    → device ≢ 0
    → icd.get_proc_addr handle "vkGetInstanceProcAddr" ≢ 0
    → icd.get_proc_addr 0 "vkGetDeviceProcAddr" ≢ 0
    → icd.invoke (icd.get_proc_addr 0 "vkGetDeviceProcAddr") device "vkGetDeviceProcAddr" ≢ 0
    → (vk_get_instance_proc_addr icd handle name
        ≡ some
            (address (icd.invoke (icd.get_proc_addr handle "vkGetInstanceProcAddr") handle name)))
      × (vk_get_device_proc_addr icd device name
          ≡ some (
              address (
                icd.invoke
                  (icd.invoke
                    (icd.get_proc_addr 0 "vkGetDeviceProcAddr")
                    device
                    "vkGetDeviceProcAddr")
                  device
                  name)))
      × (vk_icd_get_instance_proc_addr icd handle name ≡ address (icd.get_proc_addr handle name))
unfolding vk_get_instance_proc_addr vk_get_device_proc_addr vk_icd_get_instance_proc_addr call
get_entry_point-forwards icd handle device name absent there gipa gdpa own =
    (ground arith, ground arith, ground arith)

-- A function of the layer that a device gives out for a name is what the name gives with any instance,
-- and through the driver interface too.
pub device_proc-agrees :
    (icd : Icd) (device handle : ℕ) (name : String) (f : VkFunc)
    → handle ≢ 0
    → vk_get_device_proc_addr icd device name ≡ some (layer f)
    → (vk_get_instance_proc_addr icd handle name ≡ some (layer f))
      × (vk_icd_get_instance_proc_addr icd handle name ≡ layer f)
unfolding vk_get_instance_proc_addr vk_get_device_proc_addr vk_icd_get_instance_proc_addr
    device_proc instance_proc call
device_proc-agrees icd device handle name f there given =
    elim (Option-cases (get_entry_point name)) [
      | inl absent ↦ ground arith
      | inr (e, found) ↦ ground arith
    ]
