-- ===== src/IcdLoader.antt =====
-- src/wsi/icd.c: how the layer loads the driver and reads its instance extensions, the one physical
-- device, and how the layer is unloaded. The environment, the dynamic loader, the driver and TDM are
-- parameters. An address is a number, and `NULL` is 0; the block of `instance_extensions` is the list
-- of its elements, empty for `NULL`.
pub mod Driver
pub mod Loading
pub mod Latch
mod Tests
use vulkan_wsi_tizen.Common.{
  ℕ, ◌+◌, Bool, true, false, ◌&&◌, not, Option, none, some, List, [], ◌∷◌, ◌++◌, length, take, drop,
  ◌==◌, if◌then◌else◌, ◌>>=◌,
}
use Prim.Native.String.{String}
use vulkan_wsi_tizen.Enumerate.{Query, memcpy}
use vulkan_wsi_tizen.Enumerate.Results.{is_success}
use vulkan_wsi_tizen.Extensions.{ExtensionProperties, InstanceExtensions, uint32}
use vulkan_wsi_tizen.Display.{PhysicalDevice}
use vulkan_wsi_tizen.Display.Setup.{
  Tdm, vk_physical_device_init_display, vk_physical_device_fini_display,
}

-- `vk_icd_t`, its two fields on extensions as a record of their own.
pub record VkIcd : Type 0 where
  pub lib : ℕ
  pub get_proc_addr : ℕ
  pub enum_dev_exts : ℕ
  pub extensions : InstanceExtensions
  pub create_presentable_image : ℕ
  pub queue_signal_release_image : ℕ
  pub acquire_image : ℕ

-- The two static variables: `icd`, and `dev`, whose field `pdev` stands beside the others.
pub record Statics : Type 0 where
  pub icd : VkIcd
  pub pdev : ℕ
  pub device : PhysicalDevice

-- `getenv("VK_TIZEN_ICD")`, the dynamic loader, calls of the driver's functions at an address, and the
-- block that `malloc` gives for so many extensions.
pub record Loader : Type 0 where
  pub getenv : Option String
  pub dlopen : String → ℕ
  pub dlsym : ℕ → String → ℕ
  pub call_get_proc_addr : ℕ → ℕ → String → ℕ
  pub call_enum_inst_exts : ℕ → Query ExtensionProperties
  pub malloc : ℕ → Option (List ExtensionProperties)

abbrev pub wsi_instance_extensions : List ExtensionProperties
wsi_instance_extensions =
    record { extension_name = "VK_KHR_surface"; spec_version = 25 }
    ∷ record { extension_name = "VK_KHR_wayland_surface"; spec_version = 4 }
    ∷ []

-- The three functions of the driver that may be missing.
unfoldable pub retrieve_interface : Loader → VkIcd → VkIcd
retrieve_interface loader icd =
    let get = loader.call_get_proc_addr icd.get_proc_addr 0 in
    record icd {
      create_presentable_image = get "vkCreateImageFromNativeBufferTIZEN";
      queue_signal_release_image = get "vkQueueSignalReleaseImageTIZEN";
      acquire_image = get "vkAcquireImageTIZEN";
    }

-- `module_init` from the opened library on; `false` for an early return.
unfoldable pub retrieve_functions : Loader → VkIcd → VkIcd × Bool
retrieve_functions loader icd =
    let i1 = record icd { get_proc_addr = loader.dlsym icd.lib "vk_icdGetInstanceProcAddr" } in
    let i2 = record i1 {
      enum_dev_exts =
          loader.call_get_proc_addr i1.get_proc_addr 0 "vkEnumerateDeviceExtensionProperties";
    } in
    if i1.get_proc_addr == 0
    then (i1, false)
    else if i2.enum_dev_exts == 0
    then (i2, false)
    else (retrieve_interface loader i2, true)

unfoldable pub open_driver : Loader → VkIcd → VkIcd × Bool
open_driver loader icd = elim (loader.getenv) [
  | none ↦ (icd, false)
  | some filename ↦
      let i1 = record icd { lib = loader.dlopen filename } in
      if i1.lib == 0 then (i1, false) else retrieve_functions loader i1
]

-- The second query and what follows it, with the block that `malloc` gave.
unfoldable pub copy_extensions :
    Query ExtensionProperties → ℕ → List ExtensionProperties → VkIcd → Option (VkIcd × Bool)
copy_extensions enum_inst_exts count block icd =
    enum_inst_exts count (some block) >>= λ (res, count, filled). filled >>= λ extensions.
    if is_success res
    then (memcpy (length wsi_instance_extensions) wsi_instance_extensions (drop count extensions)
        >>= λ behind. some (
          record icd {
            extensions = record {
              instance_extension_count = uint32 (count + length wsi_instance_extensions);
              instance_extensions = take count extensions ++ behind;
            };
          },
          true,
        ))
    else some (
      record icd { extensions = record (icd.extensions) { instance_extensions = extensions } },
      false,
    )

-- The instance extensions. `junk` is the content of `count`, which is not initialised.
unfoldable pub read_extensions : Loader → (junk : ℕ) → VkIcd → Option (VkIcd × Bool)
read_extensions loader junk icd =
    let enum_inst_exts =
      loader.call_get_proc_addr icd.get_proc_addr 0 "vkEnumerateInstanceExtensionProperties" in
    if enum_inst_exts == 0
    then some (icd, false)
    else (loader.call_enum_inst_exts enum_inst_exts junk none >>= λ (res, count, _).
        if is_success res
        then (let count = uint32 (count + length wsi_instance_extensions) in
            elim (loader.malloc count) [
              | none ↦ some (
                record icd { extensions = record (icd.extensions) { instance_extensions = [] } },
                false,
              )
              | some block ↦
                  copy_extensions (loader.call_enum_inst_exts enum_inst_exts) count block icd
            ])
        else some (icd, false))

unfoldable pub module_init :
    Loader → (junk : ℕ) → Tdm → (calloc : ℕ → ℕ → Option ℕ) → Statics → Option Statics
module_init loader junk tdm calloc s =
    let (icd, opened) = open_driver loader s.icd in
    if opened
    then (read_extensions loader junk icd >>= λ (icd', read).
        if read
        then (vk_physical_device_init_display tdm calloc s.device >>= λ (device, _).
            some (record { icd = icd'; pdev = 0; device = device }))
        else some (record s { icd = icd' }))
    else some (record s { icd = icd })

-- What `module_fini` gives back: the blocks of the displays, the connection to TDM, the library.
pub record Released : Type 0 where
  pub freed : List ℕ
  pub closed : Option ℕ
  pub unloaded : Option ℕ

unfoldable pub module_fini : Statics → Option (Statics × Released)
module_fini s = vk_physical_device_fini_display s.device >>= λ (device, freed, closed).
    let unloaded = if s.icd.lib == 0 then none else some s.icd.lib in
    some
      (record s { device = device }, record { freed = freed; closed = closed; unloaded = unloaded })

-- Whether the answer is `&dev`, or `NULL`.
unfoldable pub vk_get_physical_device : (dev_pdev pdev : ℕ) → ℕ × Bool
vk_get_physical_device dev_pdev pdev =
    if not (dev_pdev == 0) && not (dev_pdev == pdev) then (dev_pdev, false) else (pdev, true)

-- The answers to the calls with these handles, in order.
unfoldable pub device_answers : (dev_pdev : ℕ) → List ℕ → List Bool
device_answers dev_pdev [] = []
device_answers dev_pdev (pdev ∷ calls) =
    let (latched, found) = vk_get_physical_device dev_pdev pdev in
    found ∷ device_answers latched calls
