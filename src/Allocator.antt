-- ===== src/Allocator.antt =====
-- src/wsi/allocator.c: the callbacks of the application, and the default ones over the functions of
-- the C library, which are a parameter. `M` is the state of the memory, an address is a number,
-- `none` is NULL.
use vulkan_wsi_tizen.Common.{ℕ, ◌≡◌, refl, Option, none}

-- `malloc`, `realloc` and `free`
pub record Libc (M : Type 0) : Type 0 where
  pub malloc : ℕ → M → Option ℕ × M
  pub realloc : Option ℕ → ℕ → M → Option ℕ × M
  pub free : Option ℕ → M → M

-- `VkAllocationCallbacks`; the user data and the scope are numbers.
pub record AllocationCallbacks (M : Type 0) : Type 0 where
  pub user_data : Option ℕ
  pub allocation : Option ℕ → (size align scope : ℕ) → M → Option ℕ × M
  pub reallocation : Option ℕ → (mem : Option ℕ) → (size align scope : ℕ) → M → Option ℕ × M
  pub free : Option ℕ → (mem : Option ℕ) → M → M

module _ {M : Type 0} where
  unfoldable default_alloc : Libc M → Option ℕ → (size align scope : ℕ) → M → Option ℕ × M
  default_alloc libc user_data size align scope = libc.malloc size

  unfoldable default_realloc :
      Libc M → Option ℕ → Option ℕ → (size align scope : ℕ) → M → Option ℕ × M
  default_realloc libc user_data mem size align scope = libc.realloc mem size

  unfoldable default_free : Libc M → Option ℕ → Option ℕ → M → M
  default_free libc user_data mem = libc.free mem

  unfoldable default_allocator : Libc M → AllocationCallbacks M
  default_allocator libc = record {
    user_data = none;
    allocation = default_alloc libc;
    reallocation = default_realloc libc;
    free = default_free libc;
  }

  -- The callbacks of the caller are not looked at.
  unfoldable vk_get_allocator :
      Libc M → (parent : Option ℕ) → Option (AllocationCallbacks M) → AllocationCallbacks M
  vk_get_allocator libc parent allocator = default_allocator libc

  unfoldable vk_alloc : AllocationCallbacks M → (size scope : ℕ) → M → Option ℕ × M
  vk_alloc allocator size scope = allocator.allocation allocator.user_data size 1 scope

  unfoldable vk_realloc :
      AllocationCallbacks M → (mem : Option ℕ) → (size scope : ℕ) → M → Option ℕ × M
  vk_realloc allocator mem size scope = allocator.reallocation allocator.user_data mem size 1 scope

  unfoldable vk_free : AllocationCallbacks M → (mem : Option ℕ) → M → M
  vk_free allocator mem = allocator.free allocator.user_data mem

  -- Whatever callbacks the application gives, memory comes from `malloc` and `realloc` and goes to
  -- `free`.
  get_allocator-default :
      (libc : Libc M) (parent : Option ℕ) (mine : Option (AllocationCallbacks M)) (mem : Option ℕ)
      (size scope : ℕ) (m : M)
      → let a = vk_get_allocator libc parent mine in
        (vk_alloc a size scope m ≡ libc.malloc size m)
        × (vk_realloc a mem size scope m ≡ libc.realloc mem size m)
        × (vk_free a mem m ≡ libc.free mem m)
  unfolding vk_alloc vk_realloc vk_free vk_get_allocator default_allocator default_alloc
      default_realloc default_free
  get_allocator-default libc parent mine mem size scope m = (refl, refl, refl)
