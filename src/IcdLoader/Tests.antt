-- ===== src/IcdLoader/Tests.antt =====
-- src/wsi/icd.c with a driver that has one instance extension, and a program with two devices.
use vulkan_wsi_tizen.Common.{
  ◌+◌, ◌≡◌, true, false, none, some, List, [], ◌∷◌, arith, replicate, min, ltb, if◌then◌else◌,
  ◌>>=◌,
}
use Prim.Native.String.{len}
use vulkan_wsi_tizen.Enumerate.{Query, memcpy}
use vulkan_wsi_tizen.Enumerate.Results.{success, incomplete}
use vulkan_wsi_tizen.Extensions.{ExtensionProperties}
use vulkan_wsi_tizen.Display.Samples.{blank_device}
use vulkan_wsi_tizen.IcdLoader.{Statics, Loader, device_answers}
use vulkan_wsi_tizen.IcdLoader.Latch.{device_answers-latch}

abbrev debug_report : ExtensionProperties
debug_report = record { extension_name = "VK_EXT_debug_report"; spec_version = 3 }

abbrev own : List ExtensionProperties
own = debug_report ∷ []

abbrev enum_inst_exts : Query ExtensionProperties
enum_inst_exts n none = some (success, 1, none)
enum_inst_exts n (some dst) = memcpy (min n 1) own dst >>= λ dst'.
    some ((if ltb (min n 1) 1 then incomplete else success), min n 1, some dst')

abbrev blank_extension : ExtensionProperties
blank_extension = record { extension_name = ""; spec_version = 0 }

abbrev loader : Loader
loader = record {
  getenv = some "libdriver.so";
  dlopen = λ filename. 1;
  dlsym = λ lib name. 1000 + len name;
  call_get_proc_addr = λ f handle name. 2000 + len name;
  call_enum_inst_exts = λ f. enum_inst_exts;
  malloc = λ n. some (replicate n blank_extension);
}

abbrev statics : Statics
statics = record {
  icd = record {
    lib = 0;
    get_proc_addr = 0;
    enum_dev_exts = 0;
    extensions = record { instance_extension_count = 0; instance_extensions = [] };
    create_presentable_image = 0;
    queue_signal_release_image = 0;
    acquire_image = 0;
  };
  pdev = 0;
  device = blank_device;
}

device_answers-latch_example :
    device_answers 0 (0 ∷ 7 ∷ 7 ∷ 8 ∷ 0 ∷ []) ≡ true ∷ true ∷ true ∷ false ∷ false ∷ []
device_answers-latch_example = device_answers-latch 1 7 (7 ∷ 8 ∷ 0 ∷ []) (omega arith)
