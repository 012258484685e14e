-- ===== src/EntryPoints/Tests.antt =====
-- The lookups of src/wsi/entry-points.c with a driver that answers with sums.
use vulkan_wsi_tizen.Common.{◌+◌, ◌≡◌, refl, some, get_elem?}
use Prim.Native.String.{len}
use vulkan_wsi_tizen.EntryPoints.{
  VkEntry, Icd, vk_create_swapchain_khr_func, func_type_device, entry_points, find_entry,
  get_entry_point, vk_get_instance_proc_addr, vk_get_device_proc_addr,
  vk_icd_get_instance_proc_addr, device_proc, instance_proc, call,
}
use vulkan_wsi_tizen.EntryPoints.Dispatch.{Answers, entry_points-Answers}

program : Unit {0}
unfolding entry_points find_entry get_entry_point vk_get_instance_proc_addr vk_get_device_proc_addr
    vk_icd_get_instance_proc_addr device_proc instance_proc call
program = tt

abbrev driver : Icd
driver = record {
  get_proc_addr = λ handle name. 1000 + handle + len name;
  invoke = λ f handle name. f + handle + len name;
}

abbrev create_swapchain : VkEntry
create_swapchain = record {
  name = "vkCreateSwapchainKHR";
  func = vk_create_swapchain_khr_func;
  type = func_type_device;
}

sixth : get_elem? entry_points 6 ≡ some create_swapchain
unfolding program
sixth = refl

entry_points-Answers_example : Answers driver create_swapchain
entry_points-Answers_example = entry_points-Answers driver 6 create_swapchain sixth
