-- ===== src/NullDriver/Tables.antt =====
-- The tables of functions of null-driver/null-driver.c. A function is the name that the source
-- gives it.
use vulkan_wsi_tizen.Common.{List, [], ◌∷◌}
use Prim.Native.String.{String}

pub record NulldrvEntry : Type 0 where
  pub name : String
  pub func : String

abbrev entry : String → String → NulldrvEntry
entry name func = record { name = name; func = func }

unfoldable pub device_funcs : List NulldrvEntry
device_funcs =
    entry "vkGetDeviceProcAddr" "get_device_proc_addr"
    ∷ entry "vkEnumerateDeviceExtensionProperties" "enumerate_device_extension_properties"
    ∷ entry "vkEnumerateDeviceLayerProperties" "enumerate_device_layer_properties"
    ∷ entry "vkDestroyDevice" "destroy_device"
    ∷ entry "vkGetDeviceQueue" "get_device_queue"
    ∷ entry "vkQueueSubmit" "queue_submit"
    ∷ entry "vkQueueWaitIdle" "queue_wait_idle"
    ∷ entry "vkDeviceWaitIdle" "device_wait_idle"
    ∷ entry "vkAllocateMemory" "allocate_memory"
    ∷ entry "vkFreeMemory" "free_memory"
    ∷ entry "vkMapMemory" "map_memory"
    ∷ entry "vkUnmapMemory" "unmap_memory"
    ∷ entry "vkFlushMappedMemoryRanges" "flush_mapped_memory_ranges"
    ∷ entry "vkInvalidateMappedMemoryRanges" "invalidate_mapped_memory_ranges"
    ∷ entry "vkGetDeviceMemoryCommitment" "get_device_memory_commitment"
    ∷ entry "vkBindBufferMemory" "bind_buffer_memory"
    ∷ entry "vkBindImageMemory" "bind_image_memory"
    ∷ entry "vkGetBufferMemoryRequirements" "get_buffer_memory_requirements"
    ∷ entry "vkGetImageMemoryRequirements" "get_image_memory_requirements"
    ∷ entry "vkGetImageSparseMemoryRequirements" "get_image_sparse_memory_requirements"
    ∷ entry "vkQueueBindSparse" "queue_bind_sparse"
    ∷ entry "vkCreateFence" "create_fence"
    ∷ entry "vkDestroyFence" "destroy_fence"
    ∷ entry "vkResetFences" "reset_fences"
    ∷ entry "vkGetFenceStatus" "get_fence_status"
    ∷ entry "vkWaitForFences" "wait_for_fences"
    ∷ entry "vkCreateSemaphore" "create_semaphore"
    ∷ entry "vkDestroySemaphore" "destroy_semaphore"
    ∷ entry "vkCreateEvent" "create_event"
    ∷ entry "vkDestroyEvent" "destroy_event"
    ∷ entry "vkGetEventStatus" "get_event_status"
    ∷ entry "vkSetEvent" "set_event"
    ∷ entry "vkResetEvent" "reset_event"
    ∷ entry "vkCreateQueryPool" "create_query_pool"
    ∷ entry "vkDestroyQueryPool" "destroy_query_pool"
    ∷ entry "vkGetQueryPoolResults" "get_query_pool_results"
    ∷ entry "vkCreateBuffer" "create_buffer"
    ∷ entry "vkDestroyBuffer" "destroy_buffer"
    ∷ entry "vkCreateBufferView" "create_buffer_view"
    ∷ entry "vkDestroyBufferView" "destroy_buffer_view"
    ∷ entry "vkCreateImage" "create_image"
    ∷ entry "vkCreateImageFromNativeBufferTIZEN" "create_image_from_native_buffer_TIZEN"
    ∷ entry "vkDestroyImage" "destroy_image"
    ∷ entry "vkGetImageSubresourceLayout" "get_image_subresource_layout"
    ∷ entry "vkCreateImageView" "create_image_view"
    ∷ entry "vkDestroyImageView" "destroy_image_view"
    ∷ entry "vkCreateShaderModule" "create_shader_module"
    ∷ entry "vkDestroyShaderModule" "destroy_shader_module"
    ∷ entry "vkCreatePipelineCache" "create_pipeline_cache"
    ∷ entry "vkDestroyPipelineCache" "destroy_pipeline_cache"
    ∷ entry "vkGetPipelineCacheData" "get_pipeline_cache_data"
    ∷ entry "vkMergePipelineCaches" "merge_pipeline_caches"
    ∷ entry "vkCreateGraphicsPipelines" "create_graphics_pipelines"
    ∷ entry "vkCreateComputePipelines" "create_compute_pipelines"
    ∷ entry "vkDestroyPipeline" "destroy_pipeline"
    ∷ entry "vkCreatePipelineLayout" "create_pipeline_layout"
    ∷ entry "vkDestroyPipelineLayout" "destroy_pipeline_layout"
    ∷ entry "vkCreateSampler" "create_sampler"
    ∷ entry "vkDestroySampler" "destroy_sampler"
    ∷ entry "vkCreateDescriptorSetLayout" "create_descriptor_set_layout"
    ∷ entry "vkDestroyDescriptorSetLayout" "destroy_descriptor_set_layout"
    ∷ entry "vkCreateDescriptorPool" "create_descriptor_pool"
    ∷ entry "vkDestroyDescriptorPool" "destroy_descriptor_pool"
    ∷ entry "vkResetDescriptorPool" "reset_descriptor_pool"
    ∷ entry "vkAllocateDescriptorSets" "allocate_descriptor_sets"
    ∷ entry "vkFreeDescriptorSets" "free_descriptor_sets"
    ∷ entry "vkUpdateDescriptorSets" "update_descriptor_sets"
    ∷ entry "vkCreateFramebuffer" "create_framebuffer"
    ∷ entry "vkDestroyFramebuffer" "destroy_framebuffer"
    ∷ entry "vkCreateRenderPass" "create_render_pass"
    ∷ entry "vkDestroyRenderPass" "destroy_render_pass"
    ∷ entry "vkGetRenderAreaGranularity" "get_render_area_granularity"
    ∷ entry "vkCreateCommandPool" "create_command_pool"
    ∷ entry "vkDestroyCommandPool" "destroy_command_pool"
    ∷ entry "vkResetCommandPool" "reset_command_pool"
    ∷ entry "vkAllocateCommandBuffers" "allocate_command_buffers"
    ∷ entry "vkFreeCommandBuffers" "free_command_buffers"
    ∷ entry "vkBeginCommandBuffer" "begin_command_buffer"
    ∷ entry "vkEndCommandBuffer" "end_command_buffer"
    ∷ entry "vkResetCommandBuffer" "reset_command_buffer"
    ∷ entry "vkCmdBindPipeline" "cmd_bind_pipeline"
    ∷ entry "vkCmdSetViewport" "cmd_set_viewport"
    ∷ entry "vkCmdSetScissor" "cmd_set_scissor"
    ∷ entry "vkCmdSetLineWidth" "cmd_set_line_width"
    ∷ entry "vkCmdSetDepthBias" "cmd_set_depth_bias"
    ∷ entry "vkCmdSetBlendConstants" "cmd_set_blend_constants"
    ∷ entry "vkCmdSetDepthBounds" "cmd_set_depth_bounds"
    ∷ entry "vkCmdSetStencilCompareMask" "cmd_set_stencil_compare_mask"
    ∷ entry "vkCmdSetStencilWriteMask" "cmd_set_stencil_write_mask"
    ∷ entry "vkCmdSetStencilReference" "cmd_set_stencil_reference"
    ∷ entry "vkCmdBindDescriptorSets" "cmd_bind_descriptor_sets"
    ∷ entry "vkCmdBindIndexBuffer" "cmd_bind_index_buffer"
    ∷ entry "vkCmdBindVertexBuffers" "cmd_bind_vertex_buffers"
    ∷ entry "vkCmdDraw" "cmd_draw"
    ∷ entry "vkCmdDrawIndexed" "cmd_draw_indexed"
    ∷ entry "vkCmdDrawIndirect" "cmd_draw_indirect"
    ∷ entry "vkCmdDrawIndexedIndirect" "cmd_draw_indexed_indirect"
    ∷ entry "vkCmdDispatch" "cmd_dispatch"
    ∷ entry "vkCmdDispatchIndirect" "cmd_dispatch_indirect"
    ∷ entry "vkCmdCopyBuffer" "cmd_copy_buffer"
    ∷ entry "vkCmdCopyImage" "cmd_copy_image"
    ∷ entry "vkCmdBlitImage" "cmd_blit_image"
    ∷ entry "vkCmdCopyBufferToImage" "cmd_copy_buffer_to_image"
    ∷ entry "vkCmdCopyImageToBuffer" "cmd_copy_image_to_buffer"
    ∷ entry "vkCmdUpdateBuffer" "cmd_update_buffer"
    ∷ entry "vkCmdFillBuffer" "cmd_fill_buffer"
    ∷ entry "vkCmdClearColorImage" "cmd_clear_color_image"
    ∷ entry "vkCmdClearDepthStencilImage" "cmd_clear_depth_stencil_image"
    ∷ entry "vkCmdClearAttachments" "cmd_clear_attachments"
    ∷ entry "vkCmdResolveImage" "cmd_resolve_image"
    ∷ entry "vkCmdSetEvent" "cmd_set_event"
    ∷ entry "vkCmdResetEvent" "cmd_reset_event"
    ∷ entry "vkCmdWaitEvents" "cmd_wait_events"
    ∷ entry "vkCmdPipelineBarrier" "cmd_pipeline_barrier"
    ∷ entry "vkCmdBeginQuery" "cmd_begin_query"
    ∷ entry "vkCmdEndQuery" "cmd_end_query"
    ∷ entry "vkCmdResetQueryPool" "cmd_reset_query_pool"
    ∷ entry "vkCmdWriteTimestamp" "cmd_write_timestamp"
    ∷ entry "vkCmdCopyQueryPoolResults" "cmd_copy_query_pool_results"
    ∷ entry "vkCmdPushConstants" "cmd_push_constants"
    ∷ entry "vkCmdBeginRenderPass" "cmd_begin_render_pass"
    ∷ entry "vkCmdNextSubpass" "cmd_next_subpass"
    ∷ entry "vkCmdEndRenderPass" "cmd_end_render_pass"
    ∷ entry "vkCmdExecuteCommands" "cmd_execute_commands"
    ∷ []

unfoldable pub global_funcs : List NulldrvEntry
global_funcs =
    entry "vkEnumerateInstanceLayerProperties" "enumerate_instance_layer_properties"
    ∷ entry "vkEnumerateInstanceExtensionProperties" "enumerate_instance_extension_properties"
    ∷ entry "vkCreateInstance" "create_instance"
    ∷ []

unfoldable pub instance_funcs : List NulldrvEntry
instance_funcs =
    entry "vkGetInstanceProcAddr" "get_instance_proc_addr"
    ∷ entry "vkDestroyInstance" "destroy_instance"
    ∷ entry "vkEnumeratePhysicalDevices" "enumerate_physical_devices"
    ∷ entry "vkGetPhysicalDeviceFeatures" "get_physical_device_features"
    ∷ entry "vkGetPhysicalDeviceFormatProperties" "get_physical_device_format_properties"
    ∷ entry "vkGetPhysicalDeviceImageFormatProperties" "get_physical_device_image_format_properties"
    ∷ entry "vkGetPhysicalDeviceProperties" "get_physical_device_properties"
    ∷ entry "vkGetPhysicalDeviceQueueFamilyProperties" "get_physical_device_queue_family_properties"
    ∷ entry "vkGetPhysicalDeviceMemoryProperties" "get_physical_device_memory_properties"
    ∷ entry "vkGetPhysicalDeviceSparseImageFormatProperties"
        "get_physical_device_sparse_image_format_properties"
    ∷ entry "vkCreateDevice" "create_device"
    ∷ []
