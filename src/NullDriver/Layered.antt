-- ===== src/NullDriver/Layered.antt =====
-- The layer of src/wsi on the driver of null-driver/null-driver.c: names and extensions from the one
-- end to the other. Where the linker put the driver's functions, and calls of those that look nothing
-- up, are parameters.
use vulkan_wsi_tizen.Common.{
  ℕ, ◌≡◌, ◌≢◌, refl, Option, none, some, List, length, get_elem?, arith, ◌==◌, ==_refl,
  if◌then◌else◌, not, Bool, true, ap, ◌∙◌,
}
use Prim.Native.String.{String}
use vulkan_wsi_tizen.Enumerate.Copy.{Enumerates}
use vulkan_wsi_tizen.Extensions.{ExtensionProperties, vk_enumerate_device_extension_properties}
use vulkan_wsi_tizen.Extensions.Device.{device_extensions-Enumerates}
use vulkan_wsi_tizen.EntryPoints.{
  Icd, Proc, address, get_entry_point, vk_get_instance_proc_addr, vk_get_device_proc_addr,
  vk_icd_get_instance_proc_addr,
}
use vulkan_wsi_tizen.EntryPoints.Dispatch.{get_entry_point-forwards}
use vulkan_wsi_tizen.NullDriver.Tables.{NulldrvEntry, global_funcs, instance_funcs, device_funcs}
use vulkan_wsi_tizen.NullDriver.Lookup.{
  get_device_proc_addr, get_instance_proc_addr, vk_icd_get_instance_proc_addr as null_icd_proc_addr,
}
use vulkan_wsi_tizen.NullDriver.Lookup.Answers.{
  all_funcs, is_global, is_device, func_or_null, all_funcs-Answers,
}
use vulkan_wsi_tizen.NullDriver.Enumerations.{
  device_extensions, enumerate_device_extension_properties, enumerate_device-Enumerates,
}
use vulkan_wsi_tizen.Extensions.Search.{is_listed}

-- Addresses are not `NULL`, and two functions that the layer calls by address are told apart.
pub record Linked (address_of : String → ℕ) : Type 0 where
  pub there : (func : String) → address_of func ≢ 0
  pub apart : address_of "get_instance_proc_addr" ≢ address_of "get_device_proc_addr"

abbrev pub func_address : (String → ℕ) → Option String → ℕ
func_address address_of none = 0
func_address address_of (some func) = address_of func

-- The null driver as the driver of the layer.
abbrev pub null_icd : (String → ℕ) → (other : ℕ → ℕ → String → ℕ) → Icd
null_icd address_of other = record {
  get_proc_addr = λ handle name. func_address address_of (null_icd_proc_addr handle name);
  invoke = λ f handle name.
      if f == address_of "get_instance_proc_addr"
      then func_address address_of (get_instance_proc_addr handle name)
      else if f == address_of "get_device_proc_addr"
      then func_address address_of (get_device_proc_addr handle name)
      else other f handle name;
}

gipa_entry : NulldrvEntry
gipa_entry = record { name = "vkGetInstanceProcAddr"; func = "get_instance_proc_addr" }

gdpa_entry : NulldrvEntry
gdpa_entry = record { name = "vkGetDeviceProcAddr"; func = "get_device_proc_addr" }

-- The two lookups stand in the driver's tables.
gipa_listed : get_elem? all_funcs 3 ≡ some gipa_entry
unfolding global_funcs instance_funcs device_funcs gipa_entry
gipa_listed = refl

gdpa_listed : get_elem? all_funcs 14 ≡ some gdpa_entry
unfolding global_funcs instance_funcs device_funcs gdpa_entry
gdpa_listed = refl

gdpa_is_device : is_device 14 ≡ true
unfolding global_funcs instance_funcs
gdpa_is_device = refl

-- What the tables of the driver hold for the name, by the rules of the lookups.
abbrev pub driver_proc : (String → ℕ) → Bool → NulldrvEntry → Proc
driver_proc address_of shown e = address (func_address address_of (func_or_null shown e))

module _ {address_of : String → ℕ} (linked : Linked address_of) (other : ℕ → ℕ → String → ℕ) where
  gipa-address :
      (handle : ℕ)
      → (null_icd address_of other).get_proc_addr handle "vkGetInstanceProcAddr"
        ≡ address_of "get_instance_proc_addr"
  unfolding gipa_entry
  gipa-address handle =
      ap (func_address address_of)
        ((all_funcs-Answers 3 gipa_entry gipa_listed).icd_proc_addr handle)

  gdpa-address :
      (handle : ℕ)
      → (null_icd address_of other).get_proc_addr handle "vkGetDeviceProcAddr"
        ≡ address_of "get_device_proc_addr"
  unfolding gdpa_entry
  gdpa-address handle =
      ap (func_address address_of)
        ((all_funcs-Answers 14 gdpa_entry gdpa_listed).icd_proc_addr handle)

  gipa-invoke :
      (handle : ℕ) (name : String)
      → (null_icd address_of other).invoke (address_of "get_instance_proc_addr") handle name
        ≡ func_address address_of (get_instance_proc_addr handle name)
  gipa-invoke handle name = rw ==_refl refl

  gdpa-invoke :
      (device : ℕ) (name : String)
      → (null_icd address_of other).invoke (address_of "get_device_proc_addr") device name
        ≡ func_address address_of (get_device_proc_addr device name)
  gdpa-invoke device name = ground (arith, linked.apart)

  gdpa_self :
      (device : ℕ)
      → func_address address_of (get_device_proc_addr device "vkGetDeviceProcAddr")
        ≡ address_of "get_device_proc_addr"
  unfolding gdpa_entry
  gdpa_self device =
      let own : get_device_proc_addr device "vkGetDeviceProcAddr"
          ≡ func_or_null (is_device 14) gdpa_entry =
        (all_funcs-Answers 14 gdpa_entry gdpa_listed).device_proc_addr device in
      rw (own, gdpa_is_device) refl

  -- A function of the null driver whose name is not one of the layer's is found through the layer,
  -- which does not fault: with an instance handle exactly when it is global and the handle is null,
  -- or it is not and the handle is not, with a device exactly when it is one of the device, through
  -- `vk_icdGetInstanceProcAddr` always. It is found as the driver's own function.
  pub layered-answers :
      (i : ℕ) (e : NulldrvEntry) (handle device : ℕ)
      → get_elem? all_funcs i ≡ some e
      → get_entry_point e.name ≡ none
      → device ≢ 0
      → (vk_get_instance_proc_addr (null_icd address_of other) handle e.name
          ≡ some
              (driver_proc address_of (if is_global i then handle == 0 else not (handle == 0)) e))
        × (vk_get_device_proc_addr (null_icd address_of other) device e.name
            ≡ some (driver_proc address_of (is_device i) e))
        × (vk_icd_get_instance_proc_addr (null_icd address_of other) handle e.name
            ≡ driver_proc address_of true e)
  layered-answers i e handle device found absent there =
      let a = all_funcs-Answers i e found in
      let (by_instance, by_device, by_icd) =
        get_entry_point-forwards (null_icd address_of other) handle device e.name absent there
          (rw (gipa-address handle) (linked.there _)) (rw (gdpa-address 0) (linked.there _))
          (rw (gdpa-address 0, gdpa-invoke device "vkGetDeviceProcAddr", gdpa_self device)
            (linked.there _)) in
      (
        by_instance
            ∙ rw (gipa-address handle, gipa-invoke handle e.name, a.instance_proc_addr handle) refl,
        by_device
            ∙ rw
                (
                  gdpa-address 0,
                  gdpa-invoke device "vkGetDeviceProcAddr",
                  gdpa_self device,
                  gdpa-invoke device e.name,
                  a.device_proc_addr device,
                )
                refl,
        by_icd ∙ rw (a.icd_proc_addr handle) refl,
      )

-- A device of the layer on the null driver has the swapchain extension once, in both calls: the driver
-- lists it, and the layer does not add it again.
pub layered_extensions-Enumerates :
    (vk_alloc : ℕ → Option (List ExtensionProperties)) (block : List ExtensionProperties)
    → vk_alloc 1 ≡ some block
    → length block ≡ 1
    → Enumerates device_extensions
        (vk_enumerate_device_extension_properties vk_alloc enumerate_device_extension_properties)
unfolding is_listed
layered_extensions-Enumerates vk_alloc block given size =
    device_extensions-Enumerates enumerate_device-Enumerates (omega arith) vk_alloc block given size
