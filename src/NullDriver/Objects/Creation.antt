-- ===== src/NullDriver/Objects/Creation.antt =====
-- What the creating entry points of null-driver/null-driver.c promise, and that they keep it.
use vulkan_wsi_tizen.Common.{
  ℕ, ◌≡◌, refl, ◌∙◌, sym, Bool, false, none, some, length, arith, ◌==◌, inl, inr, ==_refl,
  if◌then◌else◌, Option,
}
use vulkan_wsi_tizen.Enumerate.Results.{success, error_out_of_host_memory}
use vulkan_wsi_tizen.NullDriver.Heap.{Heap, load, store, malloc-cases, load-store, load-lt, malloc}
use vulkan_wsi_tizen.NullDriver.Objects.{
  Object, Created, nulldrv_instance, nulldrv_fence, nulldrv_sampler, nulldrv_desc_layout,
  nulldrv_pipeline_layout, nulldrv_pipeline, nulldrv_framebuffer, nulldrv_render_pass,
  nulldrv_shader_module, nulldrv_img, nulldrv_bo, nulldrv_mem, nulldrv_img_view, nulldrv_buf,
  nulldrv_desc_pool, nulldrv_buf_view, base_create_or_fail, nulldrv_base_create, nulldrv_mem_alloc,
  create_shader_module, create_instance, nulldrv_fence_create, nulldrv_img_create,
  nulldrv_sampler_create, nulldrv_img_view_create, nulldrv_buf_create, nulldrv_buf_view_create,
  nulldrv_desc_layout_create, nulldrv_pipeline_layout_create, graphics_pipeline_create,
  nulldrv_desc_pool_create, nulldrv_fb_create, nulldrv_render_pass_create, alloc_bo,
}
use vulkan_wsi_tizen.NullDriver.Objects.Calls.{
  Call, run_call, create_fence_call, create_image_call, create_image_from_native_buffer_tizen_call,
  create_sampler_call, create_image_view_call, create_buffer_call, create_buffer_view_call,
  create_descriptor_set_layout_call, create_pipeline_layout_call, create_graphics_pipelines_call,
  create_descriptor_pool_call, create_framebuffer_call, create_render_pass_call,
  create_shader_module_call, create_instance_call, allocate_memory_call, create_fence, create_image,
  create_image_from_native_buffer_tizen, create_sampler, create_image_view, create_buffer,
  create_buffer_view, create_descriptor_set_layout, create_pipeline_layout,
  create_graphics_pipelines, create_descriptor_pool, create_framebuffer, create_render_pass,
  allocate_memory,
}
use mathlib.Core.Path.{subst}
use vulkan_wsi_tizen.NullDriver.Objects.Promises.{
  image_of, Holds, Adds-Keeps, same-Keeps, Settles, Keeps-trans,
}

module _ (gives : ℕ → Bool) (c : Call) where
  once :
      (object : Object)
      → ((heap : Heap Object) (p : ℕ) → load heap p ≡ some object → Holds c heap p)
      → (heap : Heap Object) → Settles gives c heap (base_create_or_fail gives object heap)
  unfolding base_create_or_fail nulldrv_base_create
  once object shows heap = elim (malloc-cases gives object heap) [
    | inl (_, (heap', run, adds)) ↦
        let answer : base_create_or_fail gives object heap
            ≡ (success, some (length heap.blocks), heap') =
          ground (arith, run) in
        subst (Settles gives c heap) (sym answer) (
          Adds-Keeps heap heap' (length heap.blocks) object adds,
          inl (record {
            result_is = refl;
            handle = length heap.blocks;
            handle_is = refl;
            is_new = omega arith;
            is_in = omega (arith, adds.size_is);
            holds =
                shows heap' (length heap.blocks)
                  (ground (arith, adds.load_is (length heap.blocks)));
          }),
        )
    | inr (full, (heap', run, same)) ↦
        let answer : base_create_or_fail gives object heap
            ≡ (error_out_of_host_memory, none, heap') =
          ground (arith, run) in
        subst (Settles gives c heap) (sym answer) (
          same-Keeps heap heap' same,
          inr (record {
            result_is = refl;
            nothing_is = refl;
            full = (heap.attempts, full);
            blocks_is = λ plain. same;
          }),
        )
  ]

else_is :
    (b : Bool) (w x y z : Option Object) → w ≡ (if b then x else y) → b ≡ false → y ≡ z → w ≡ z
else_is b w x y z test other rest = ground arith

mem_alloc-both :
    (gives : ℕ → Bool) (size : ℕ) (heap h1 h2 h3 : Heap Object) (p bo : ℕ)
    → malloc gives (nulldrv_mem 0 0) heap ≡ (some p, h1)
    → malloc gives (nulldrv_bo size) h1 ≡ (some bo, h2)
    → store h2 p (nulldrv_mem bo size) ≡ some h3
    → nulldrv_mem_alloc gives size heap ≡ some (success, some p, h3)
unfolding nulldrv_mem_alloc nulldrv_base_create alloc_bo
mem_alloc-both gives size heap h1 h2 h3 p bo run run' run'' = ground (arith, run, run', run'')

mem_alloc-first :
    (gives : ℕ → Bool) (size : ℕ) (heap h1 h2 : Heap Object) (p : ℕ)
    → malloc gives (nulldrv_mem 0 0) heap ≡ (some p, h1)
    → malloc gives (nulldrv_bo size) h1 ≡ (none, h2)
    → nulldrv_mem_alloc gives size heap ≡ some (error_out_of_host_memory, none, h2)
unfolding nulldrv_mem_alloc nulldrv_base_create alloc_bo
mem_alloc-first gives size heap h1 h2 p run run' = ground (arith, run, run')

memory_call-Settles :
    (gives : ℕ → Bool) (size : ℕ) (heap : Heap Object)
    → (out : Created) × (nulldrv_mem_alloc gives size heap ≡ some out)
      × Settles gives (allocate_memory_call size) heap out
unfolding nulldrv_mem_alloc nulldrv_base_create alloc_bo
memory_call-Settles gives size heap = elim (malloc-cases gives (nulldrv_mem 0 0) heap) [
  | inr (full, (h1, run, same)) ↦ (
    (error_out_of_host_memory, none, h1),
    ground (arith, run),
    (
      same-Keeps heap h1 same,
      inr (record {
        result_is = refl;
        nothing_is = refl;
        full = (heap.attempts, full);
        blocks_is = λ plain. same;
      }),
    ),
  )
  | inl (_, (h1, run, adds)) ↦
      let first = Adds-Keeps heap h1 (length heap.blocks) (nulldrv_mem 0 0) adds in
      elim (malloc-cases gives (nulldrv_bo size) h1) [
        | inr (full, (h2, run', same)) ↦ (
          (error_out_of_host_memory, none, h2),
          mem_alloc-first gives size heap h1 h2 (length heap.blocks) run run',
          (
            Keeps-trans heap h1 h2 first (same-Keeps h1 h2 same),
            inr (record {
              result_is = refl;
              nothing_is = refl;
              full = (h1.attempts, full);
              blocks_is = λ plain. cc plain;
            }),
          ),
        )
        | inl (_, (h2, run', adds')) ↦
            let mem = length heap.blocks in
            let bo = length h1.blocks in
            let live : load h2 mem ≡ some (nulldrv_mem 0 0) =
              ground (arith, adds.load_is mem, adds'.load_is mem, adds.size_is) in
            let apart : (bo == mem) ≡ false = ground (arith, adds.size_is) in
            let (h3, run'', size_is, load_is) = load-store h2 mem _ (nulldrv_mem bo size) live in
            (
              (success, some mem, h3),
              mem_alloc-both gives size heap h1 h2 h3 mem bo run run' run'',
              (
                record {
                  loads = λ q a found.
                      let lt = load-lt heap q a found in
                      let still =
                        (Adds-Keeps h1 h2 bo (nulldrv_bo size) adds').loads q a
                          (first.loads q a found) in
                      let other : (q == mem) ≡ false = ground arith in
                      else_is (q == mem) _ _ _ _ (load_is q) other still;
                  grows = omega (arith, adds.size_is, adds'.size_is, size_is);
                },
                inl (record {
                  result_is = refl;
                  handle = mem;
                  handle_is = refl;
                  is_new = omega arith;
                  is_in = omega (arith, adds.size_is, adds'.size_is, size_is);
                  holds = (
                    bo,
                    omega (arith, adds.size_is),
                    omega (arith, adds.size_is),
                    ground (arith, load_is mem),
                    else_is (bo == mem) _ _ _ _ (load_is bo) apart
                        (adds'.load_is bo ∙ rw ==_refl refl),
                  );
                }),
              ),
            )
      ]
]

-- A call that creates an object either succeeds, with a handle of an object that is new and the one
-- asked for, or fails for want of memory and stores no handle; what was live stays as it was, and a
-- failed call that is not one for memory leaves no block behind. It fails only if a call of
-- `malloc` does.
pub run_call-Settles :
    (gives : ℕ → Bool) (c : Call) (heap : Heap Object)
    → (out : Created) × (run_call gives c heap ≡ some out) × Settles gives c heap out
unfolding run_call create_fence create_image create_image_from_native_buffer_tizen create_sampler
    create_image_view create_buffer create_buffer_view create_descriptor_set_layout
    create_pipeline_layout create_graphics_pipelines create_descriptor_pool create_framebuffer
    create_render_pass create_shader_module create_instance allocate_memory nulldrv_fence_create
    nulldrv_img_create nulldrv_sampler_create nulldrv_img_view_create nulldrv_buf_create
    nulldrv_buf_view_create nulldrv_desc_layout_create nulldrv_pipeline_layout_create
    graphics_pipeline_create nulldrv_desc_pool_create nulldrv_fb_create nulldrv_render_pass_create
run_call-Settles gives create_fence_call heap =
    (_, refl, once gives create_fence_call nulldrv_fence (λ h p found. found) heap)
run_call-Settles gives create_sampler_call heap =
    (_, refl, once gives create_sampler_call nulldrv_sampler (λ h p found. found) heap)
run_call-Settles gives (create_image_view_call image) heap = (
  _,
  refl,
  once gives (create_image_view_call image) (nulldrv_img_view image 8) (λ h p found. found) heap,
)
run_call-Settles gives (create_buffer_call size usage) heap = (
  _,
  refl,
  once gives (create_buffer_call size usage) (nulldrv_buf size usage) (λ h p found. found) heap,
)
run_call-Settles gives (create_buffer_view_call buffer) heap = (
  _,
  refl,
  once gives (create_buffer_view_call buffer) (nulldrv_buf_view buffer) (λ h p found. found) heap,
)
run_call-Settles gives create_descriptor_set_layout_call heap = (
  _,
  refl,
  once gives create_descriptor_set_layout_call nulldrv_desc_layout (λ h p found. found) heap,
)
run_call-Settles gives create_pipeline_layout_call heap = (
  _,
  refl,
  once gives create_pipeline_layout_call nulldrv_pipeline_layout (λ h p found. found) heap,
)
run_call-Settles gives (create_graphics_pipelines_call create_info_count) heap = (
  _,
  refl,
  once gives (create_graphics_pipelines_call create_info_count) nulldrv_pipeline
      (λ h p found. found) heap,
)
run_call-Settles gives (create_descriptor_pool_call device) heap = (
  _,
  refl,
  once gives (create_descriptor_pool_call device) (nulldrv_desc_pool device) (λ h p found. found)
      heap,
)
run_call-Settles gives create_framebuffer_call heap =
    (_, refl, once gives create_framebuffer_call nulldrv_framebuffer (λ h p found. found) heap)
run_call-Settles gives create_render_pass_call heap =
    (_, refl, once gives create_render_pass_call nulldrv_render_pass (λ h p found. found) heap)
run_call-Settles gives create_shader_module_call heap =
    (_, refl, once gives create_shader_module_call nulldrv_shader_module (λ h p found. found) heap)
run_call-Settles gives create_instance_call heap =
    (_, refl, once gives create_instance_call nulldrv_instance (λ h p found. found) heap)
run_call-Settles gives (create_image_call info) heap = (
  _,
  refl,
  once gives (create_image_call info) (nulldrv_img (image_of 0 info)) (λ h p found. found) heap,
)
run_call-Settles gives (create_image_from_native_buffer_tizen_call surface info) heap = (
  _,
  refl,
  once gives (create_image_from_native_buffer_tizen_call surface info)
      (nulldrv_img (image_of surface info)) (λ h p found. found) heap,
)
run_call-Settles gives (allocate_memory_call allocation_size) heap =
    memory_call-Settles gives allocation_size heap
