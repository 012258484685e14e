-- ===== src/IcdLoader/Loading.antt =====
-- `module_init` of src/wsi/icd.c.
use vulkan_wsi_tizen.Common.{
  ℕ, ◌+◌, ◌^◌, ◌<◌, ◌≡◌, ◌⊎◌, inl, inr, refl, true, false, Option, some, List, ◌++◌, length, take,
  Bool, arith, ◌∙◌, length-append, ◌≤◌, ap,
}
use vulkan_wsi_tizen.Enumerate.Copy.{Enumerates, take-length}
use vulkan_wsi_tizen.Extensions.{ExtensionProperties, vk_enumerate_instance_extension_properties}
use vulkan_wsi_tizen.Display.{vk_max_display_count, vk_max_plane_count, PhysicalDevice}
use vulkan_wsi_tizen.Display.Setup.{Tdm, vk_physical_device_init_display}
use vulkan_wsi_tizen.IcdLoader.{
  VkIcd, Statics, Loader, wsi_instance_extensions, module_init, retrieve_interface,
}
use vulkan_wsi_tizen.Display.Outputs.{
  HasArrays, GivesModes, outputs_of, layers_from, init_display-Initialised, Initialised,
}
use vulkan_wsi_tizen.Extensions.Merge.{instance_extensions-Enumerates}
use mathlib.Core.Path.{subst}
use vulkan_wsi_tizen.IcdLoader.Driver.{
  Behaves, is_usable, with_extensions, open_driver-cases, read_extensions-cases, HasDriver,
}

-- The state `s'` after the driver is in use; `before` is the device before.
pub record Loaded (own : List ExtensionProperties) (loader : Loader) (tdm : Tdm)
    (calloc : ℕ → ℕ → Option ℕ) (before : PhysicalDevice) (s : Statics) : Type 0 where
  pub extensions_of :
      Enumerates
        (own ++ wsi_instance_extensions)
        (vk_enumerate_instance_extension_properties (s.icd.extensions))
  pub device_of :
      (r : PhysicalDevice × Bool) × (vk_physical_device_init_display tdm calloc before ≡ some r)
      × (s.device ≡ r.0)
      × Initialised r
  pub pdev_of : s.pdev ≡ 0
  pub driver_of : HasDriver loader s.icd

-- What an early return has not touched.
pub record Unchanged (s s' : Statics) : Type 0 where
  pub count_of :
      s'.icd.extensions.instance_extension_count ≡ s.icd.extensions.instance_extension_count
  pub device_of : s'.device ≡ s.device
  pub pdev_of : s'.pdev ≡ s.pdev

with_extensions-Enumerates :
    (own : List ExtensionProperties) (icd : VkIcd)
    → Enumerates
        (own ++ wsi_instance_extensions)
        (vk_enumerate_instance_extension_properties ((with_extensions own icd).extensions))
with_extensions-Enumerates own icd =
    let all = own ++ wsi_instance_extensions in
    let size : length own + 2 ≡ length all =
      omega (arith, length-append own wsi_instance_extensions) in
    let whole : take (length own + 2) all ≡ all = take-length (length own + 2) all (omega arith) in
    subst
      (λ xs.
        Enumerates xs
          (vk_enumerate_instance_extension_properties ((with_extensions own icd).extensions)))
      whole (instance_extensions-Enumerates ((with_extensions own icd).extensions) (omega arith))

still-HasDriver :
    (own : List ExtensionProperties) (loader : Loader) (icd : VkIcd)
    → HasDriver loader icd
    → HasDriver loader (with_extensions own icd)
unfolding retrieve_interface
still-HasDriver own loader icd d = record {
  lib_there = d.lib_there;
  gipa_there = d.gipa_there;
  dev_there = d.dev_there;
  lib_is = d.lib_is;
  gipa_is = d.gipa_is;
  enum_dev_exts_is = d.enum_dev_exts_is;
  interface_is = ap (with_extensions own) d.interface_is;
}

pub module_init-Outcome :
    {own : List ExtensionProperties} {loader : Loader}
    → Behaves own loader
    → length own + 2 < 2 ^ 32
    → (junk : ℕ) (tdm : Tdm) (calloc : ℕ → ℕ → Option ℕ) (s : Statics) → HasArrays s.device
    → GivesModes tdm
    → outputs_of tdm ≤ vk_max_display_count
    → layers_from tdm (outputs_of tdm) 0 ≤ vk_max_plane_count
    → (s' : Statics) × (module_init loader junk tdm calloc s ≡ some s')
      × ((is_usable own loader ≡ true) × Loaded own loader tdm calloc s.device s'
          ⊎ (is_usable own loader ≡ false) × Unchanged s s')
unfolding module_init
module_init-Outcome {own} {loader} b few junk tdm calloc s arrays gives displays planes =
    let (icd, kept, found) = open_driver-cases own loader s.icd in
    elim found [
      | inl (closed, missing) ↦ (
        record s { icd = icd },
        rw closed refl,
        inr (missing, record { count_of = kept; device_of = refl; pdev_of = refl }),
      )
      | inr (opened, same, driver) ↦ elim (read_extensions-cases b few junk icd driver.gipa_is) [
        | inr (unread, icd', run, kept') ↦ (
          record s { icd = icd' },
          rw (opened, run) refl,
          inr (same ∙ unread, record { count_of = kept' ∙ kept; device_of = refl; pdev_of = refl }),
        )
        | inl (read, run) ↦
            let (r, shown, ready) =
              init_display-Initialised tdm calloc s.device arrays gives displays planes in
            (
              record { icd = with_extensions own icd; pdev = 0; device = r.0 },
              rw (opened, run, shown) refl,
              inl (
                same ∙ read,
                record {
                  extensions_of = with_extensions-Enumerates own icd;
                  device_of = (r, shown, refl, ready);
                  pdev_of = refl;
                  driver_of = still-HasDriver own loader icd driver;
                },
              ),
            )
      ]
    ]
