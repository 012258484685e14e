-- ===== src/NullDriver/Loaded.antt =====
-- src/wsi/icd.c with the driver of null-driver/null-driver.c: what the layer knows after
-- `module_init`.
use vulkan_wsi_tizen.Common.{
  ℕ, ◌≤◌, ◌≡◌, ◌≢◌, inl, inr, refl, ap, ◌∙◌, true, Option, none, some, List, ◌++◌, length, arith,
}
use mathlib.Core.Path.{sym}
use Prim.Native.String.{String}
use vulkan_wsi_tizen.Enumerate.Copy.{Enumerates}
use vulkan_wsi_tizen.Extensions.{ExtensionProperties, vk_enumerate_instance_extension_properties}
use vulkan_wsi_tizen.Display.{vk_max_display_count, vk_max_plane_count}
use vulkan_wsi_tizen.Display.Setup.{Tdm}
use vulkan_wsi_tizen.Display.Outputs.{HasArrays, GivesModes, outputs_of, layers_from}
use vulkan_wsi_tizen.IcdLoader.{
  Statics, Loader, module_init, retrieve_interface, wsi_instance_extensions, VkIcd,
}
use vulkan_wsi_tizen.IcdLoader.Driver.{Behaves, is_usable}
use vulkan_wsi_tizen.IcdLoader.Loading.{module_init-Outcome}
use vulkan_wsi_tizen.NullDriver.Tables.{global_funcs, instance_funcs, device_funcs}
use vulkan_wsi_tizen.NullDriver.Lookup.{find_func, find_in_tables, vk_icd_get_instance_proc_addr}
use vulkan_wsi_tizen.NullDriver.Layered.{Linked, func_address}
use vulkan_wsi_tizen.NullDriver.Enumerations.{
  instance_extensions, enumerate_instance_extension_properties, enumerate_instance-Enumerates,
}

-- A loader whose libraries are the null driver: the exported lookup, calls of the two functions
-- that the layer calls, and memory for three extensions.
pub record LoadsNull (address_of : String → ℕ) (loader : Loader) : Type 0 where
  pub exported :
      (lib : ℕ)
      → loader.dlsym lib "vk_icdGetInstanceProcAddr" ≡ address_of "vk_icdGetInstanceProcAddr"
  pub looks_up :
      (handle : ℕ) (name : String)
      → loader.call_get_proc_addr (address_of "vk_icdGetInstanceProcAddr") handle name
        ≡ func_address address_of (vk_icd_get_instance_proc_addr handle name)
  pub enumerates :
      loader.call_enum_inst_exts (address_of "enumerate_instance_extension_properties")
      ≡ enumerate_instance_extension_properties
  pub sizes :
      (n : ℕ) (block : List ExtensionProperties) → loader.malloc n ≡ some block → length block ≡ n

icd_names :
    (handle : ℕ)
    → (vk_icd_get_instance_proc_addr handle "vkEnumerateInstanceExtensionProperties"
        ≡ some "enumerate_instance_extension_properties")
      × (vk_icd_get_instance_proc_addr handle "vkEnumerateDeviceExtensionProperties"
          ≡ some "enumerate_device_extension_properties")
      × (vk_icd_get_instance_proc_addr handle "vkCreateImageFromNativeBufferTIZEN"
          ≡ some "create_image_from_native_buffer_TIZEN")
      × (vk_icd_get_instance_proc_addr handle "vkQueueSignalReleaseImageTIZEN" ≡ none)
      × (vk_icd_get_instance_proc_addr handle "vkAcquireImageTIZEN" ≡ none)
unfolding vk_icd_get_instance_proc_addr find_in_tables find_func global_funcs instance_funcs
    device_funcs
icd_names handle = (refl, refl, refl, refl, refl)

module _ {address_of : String → ℕ} (linked : Linked address_of) {loader : Loader}
    (loads : LoadsNull address_of loader) where
  null-Behaves : Behaves instance_extensions loader
  null-Behaves = record {
    enumerates = λ lib there.
        rw
          (
            loads.exported lib,
            loads.looks_up 0 "vkEnumerateInstanceExtensionProperties",
            (icd_names 0).0,
            loads.enumerates,
          )
          enumerate_instance-Enumerates;
    sizes = loads.sizes;
  }

  null-usable :
      (filename : String) (block : List ExtensionProperties)
      → loader.getenv ≡ some filename
      → loader.dlopen filename ≢ 0
      → loader.malloc 3 ≡ some block
      → is_usable instance_extensions loader ≡ true
  null-usable filename block named opens given =
      let lib = loader.dlopen filename in
      let exported = loads.exported lib in
      let by_device = loads.looks_up 0 "vkEnumerateDeviceExtensionProperties" in
      let by_instance = loads.looks_up 0 "vkEnumerateInstanceExtensionProperties" in
      let (i, d, _, _, _) = icd_names 0 in
      ground (
        arith,
        linked.there "vk_icdGetInstanceProcAddr",
        linked.there "enumerate_device_extension_properties",
        linked.there "enumerate_instance_extension_properties",
      )

  -- With the null driver that opens, memory for three extensions, a device with arrays of their sizes,
  -- at most 16 outputs of TDM whose modes it gives, and at most 64 rounds of the loops over their
  -- layers, `module_init` returns, the layer
  -- enumerates the surface extension twice, the driver's and its own, and the Wayland extension, the
  -- driver can make presentable images, and it has neither of the functions that hand images over.
  pub null_driver-Loaded :
      (filename : String) (block : List ExtensionProperties)
      → loader.getenv ≡ some filename
      → loader.dlopen filename ≢ 0
      → loader.malloc 3 ≡ some block
      → (junk : ℕ) (tdm : Tdm) (calloc : ℕ → ℕ → Option ℕ) (s : Statics) → HasArrays s.device
      → GivesModes tdm
      → outputs_of tdm ≤ vk_max_display_count
      → layers_from tdm (outputs_of tdm) 0 ≤ vk_max_plane_count
      → (s' : Statics) × (module_init loader junk tdm calloc s ≡ some s')
        × Enumerates
            (instance_extensions ++ wsi_instance_extensions)
            (vk_enumerate_instance_extension_properties (s'.icd.extensions))
        × (s'.icd.create_presentable_image ≡ address_of "create_image_from_native_buffer_TIZEN")
        × (s'.icd.queue_signal_release_image ≡ 0)
        × (s'.icd.acquire_image ≡ 0)
  unfolding retrieve_interface
  null_driver-Loaded filename block named opens given junk tdm calloc s arrays gives displays
        planes =
      let usable = null-usable filename block named opens given in
      let (s', run, outcome) =
        module_init-Outcome null-Behaves (omega arith) junk tdm calloc s arrays gives displays
          planes in
      elim outcome [
        | inr (unusable, _) ↦ cc
        | inl (_, loaded) ↦
            let driver = loaded.driver_of in
            let gipa = driver.gipa_is ∙ loads.exported s'.icd.lib in
            let (_, _, create, signal, acquire) = icd_names 0 in
            let found : (name : String)
                → loader.call_get_proc_addr s'.icd.get_proc_addr 0 name
                  ≡ func_address address_of (vk_icd_get_instance_proc_addr 0 name) =
              λ name. rw gipa (loads.looks_up 0 name) in
            (
              s',
              run,
              loaded.extensions_of,
              sym (ap (λ (i : VkIcd). i.create_presentable_image) driver.interface_is)
                  ∙ found "vkCreateImageFromNativeBufferTIZEN"
                  ∙ ap (func_address address_of) create,
              sym (ap (λ (i : VkIcd). i.queue_signal_release_image) driver.interface_is)
                  ∙ found "vkQueueSignalReleaseImageTIZEN"
                  ∙ ap (func_address address_of) signal,
              sym (ap (λ (i : VkIcd). i.acquire_image) driver.interface_is)
                  ∙ found "vkAcquireImageTIZEN"
                  ∙ ap (func_address address_of) acquire,
            )
      ]
