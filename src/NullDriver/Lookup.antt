-- ===== src/NullDriver/Lookup.antt =====
-- How null-driver/null-driver.c looks the address of a function up. A handle is a number, and
-- `NULL` is 0.
pub mod Answers
use vulkan_wsi_tizen.Common.{ℕ, Option, none, some, List, [], ◌∷◌, ◌==◌, if◌then◌else◌}
use Prim.Native.String.{String}
use text.Mathlib.Text.{◌==◌ as str_eq}
use vulkan_wsi_tizen.NullDriver.Tables.{NulldrvEntry, device_funcs, global_funcs, instance_funcs}

-- The loop over one table.
unfoldable pub find_func : String → List NulldrvEntry → Option String
find_func name [] = none
find_func name (e ∷ funcs) = if str_eq name e.name then some e.func else find_func name funcs

-- The tables one after the other, up to the first that has the name.
unfoldable pub find_in_tables : String → List (List NulldrvEntry) → Option String
find_in_tables name [] = none
find_in_tables name (funcs ∷ tables) = elim (find_func name funcs) [
  | some func ↦ some func
  | none ↦ find_in_tables name tables
]

unfoldable pub get_device_proc_addr : (device : ℕ) → String → Option String
get_device_proc_addr device name = find_in_tables name (device_funcs ∷ [])

unfoldable pub get_instance_proc_addr : (instance_handle : ℕ) → String → Option String
get_instance_proc_addr instance_handle name =
    if instance_handle == 0
    then find_in_tables name (global_funcs ∷ [])
    else find_in_tables name (instance_funcs ∷ device_funcs ∷ [])

unfoldable pub vk_icd_get_instance_proc_addr : (instance_handle : ℕ) → String → Option String
vk_icd_get_instance_proc_addr instance_handle name =
    find_in_tables name (global_funcs ∷ instance_funcs ∷ device_funcs ∷ [])
