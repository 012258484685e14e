-- ===== src/IcdLoader/Driver.antt =====
-- The two halves of `module_init` of src/wsi/icd.c: the functions of the driver, and its extensions.
use vulkan_wsi_tizen.Common.{
  ℕ, ◌+◌, ◌^◌, ◌<◌, ◌≡◌, ◌≢◌, ◌⊎◌, inl, inr, refl, Bool, true, false, ◌&&◌, not, Option, none, some,
  List, [], ◌∷◌, ◌++◌, length, take, drop, arith, min, ltb, ap, ◌∙◌, ◌%◌, zero, suc, ◌==◌,
  Option-cases, Bool-cases,
}
use Prim.Native.String.{String}
use vulkan_wsi_tizen.Enumerate.{Query, memcpy}
use vulkan_wsi_tizen.Enumerate.Results.{success}
use vulkan_wsi_tizen.Enumerate.Copy.{Enumerates, memcpy-take, take-length, drop-length}
use mathlib.Core.List.{append-nil}
use vulkan_wsi_tizen.Extensions.{ExtensionProperties, uint32}
use vulkan_wsi_tizen.IcdLoader.{
  VkIcd, Loader, wsi_instance_extensions, retrieve_interface, retrieve_functions, open_driver,
  copy_extensions, read_extensions,
}
use mathlib.Core.Path.{subst, sym}

abbrev pub gipa_of : Loader → (lib : ℕ) → ℕ
gipa_of loader lib = loader.dlsym lib "vk_icdGetInstanceProcAddr"

-- The driver's enumeration of instance extensions, found through its lookup at an address.
abbrev pub enumeration_of : Loader → (gipa : ℕ) → ℕ
enumeration_of loader gipa =
    loader.call_get_proc_addr gipa 0 "vkEnumerateInstanceExtensionProperties"

-- What is asked of a driver and of `malloc`: the function that a library gives for the enumeration of
-- instance extensions keeps the protocol, and a block has the size that was asked for.
pub record Behaves (own : List ExtensionProperties) (loader : Loader) : Type 0 where
  pub enumerates :
      (lib : ℕ)
      → enumeration_of loader (gipa_of loader lib) ≢ 0
      → Enumerates own (loader.call_enum_inst_exts (enumeration_of loader (gipa_of loader lib)))
  pub sizes :
      (n : ℕ) (block : List ExtensionProperties) → loader.malloc n ≡ some block → length block ≡ n

abbrev is_some : {A : Type 0} → Option A → Bool
is_some none = false
is_some (some a) = true

-- The functions that the layer cannot do without, by name.
abbrev pub has_functions : Loader → (lib : ℕ) → Bool
has_functions loader lib =
    let gipa = loader.dlsym lib "vk_icdGetInstanceProcAddr" in
    let get = loader.call_get_proc_addr gipa 0 in
    not (gipa == 0)
    && not (get "vkEnumerateDeviceExtensionProperties" == 0)
    && not (get "vkEnumerateInstanceExtensionProperties" == 0)

-- Whether the environment names a driver that opens and has what the layer needs, and there is memory
-- for its extensions and the two of the layer.
abbrev pub is_usable : List ExtensionProperties → Loader → Bool
is_usable own loader = elim (loader.getenv) [
  | none ↦ false
  | some filename ↦
      let lib = loader.dlopen filename in
      not (lib == 0) && has_functions loader lib && is_some (loader.malloc (length own + 2))
]

module _ {A : Type 0} where
  drop-append_length : (xs ys : List A) → drop (length xs) (xs ++ ys) ≡ ys
  drop-append_length [] ys = refl
  drop-append_length (x ∷ xs) ys = drop-append_length xs ys

  take-append_length : (xs ys : List A) → take (length xs) (xs ++ ys) ≡ xs
  take-append_length [] ys = refl
  take-append_length (x ∷ xs) ys = ap (λ zs. x ∷ zs) (take-append_length xs ys)

  length-drop_add : (n k : ℕ) (ys : List A) → length ys ≡ n + k → length (drop n ys) ≡ k
  length-drop_add zero k ys h = omega (arith, h)
  length-drop_add (suc n) k [] h = absurd (omega (arith, h))
  length-drop_add (suc n) k (y ∷ ys) h = length-drop_add n k ys (omega (arith, h))

  memcpy-whole :
      (n : ℕ) (src dst : List A) → length src ≡ n → length dst ≡ n → memcpy n src dst ≡ some src
  memcpy-whole n src dst p q =
      memcpy-take n src dst (omega (arith, p)) (omega (arith, q))
      ∙ rw (take-length n src (omega (arith, p)), drop-length n dst (omega (arith, q)), append-nil)
          refl

module _ {own : List ExtensionProperties} {enum : Query ExtensionProperties}
    (e : Enumerates own enum) (few : length own + 2 < 2 ^ 32) where
  -- The second query asks for two elements more than there are, and the layer's go behind them.
  copy_extensions-whole :
      (block : List ExtensionProperties) (icd : VkIcd)
      → length block ≡ length own + 2
      → copy_extensions enum (length own + 2) block icd
        ≡ some (
          record icd {
            extensions = record {
              instance_extension_count = length own + 2;
              instance_extensions = own ++ wsi_instance_extensions;
            };
          },
          true,
        )
  unfolding copy_extensions
  copy_extensions-whole block icd size =
      let least : min (length own + 2) (length own) ≡ length own = omega arith in
      let more : ltb (length own + 2) (length own) ≡ false = ground arith in
      let tail = drop (length own) block in
      let small : (length own + 2) % 2 ^ 32 ≡ length own + 2 = omega arith in
      let answer : enum (length own + 2) (some block)
          ≡ some (success, length own, some (own ++ tail)) =
        e.fills (length own + 2) block (omega (arith, size))
        ∙ rw (more, least, take-length (length own) own (omega arith)) refl in
      let copied =
        memcpy-whole 2 wsi_instance_extensions tail refl
          (length-drop_add (length own) 2 block size) in
      rw (answer, drop-append_length own tail, copied, take-append_length own tail, small) refl

-- The two fields after both queries.
abbrev pub with_extensions : List ExtensionProperties → VkIcd → VkIcd
with_extensions own icd = record icd {
  extensions = record {
    instance_extension_count = length own + 2;
    instance_extensions = own ++ wsi_instance_extensions;
  };
}

abbrev pub count_of_icd : VkIcd → ℕ
count_of_icd icd = icd.extensions.instance_extension_count

abbrev enumeration_address : Loader → VkIcd → ℕ
enumeration_address loader icd = enumeration_of loader icd.get_proc_addr

abbrev can_read : List ExtensionProperties → Loader → VkIcd → Bool
can_read own loader icd =
    not (enumeration_address loader icd == 0) && is_some (loader.malloc (length own + 2))

module _ {own : List ExtensionProperties} {loader : Loader} (b : Behaves own loader)
    (few : length own + 2 < 2 ^ 32) (junk : ℕ) (icd : VkIcd)
    (found : icd.get_proc_addr ≡ gipa_of loader icd.lib) where
  pub read_extensions-cases :
      (can_read own loader icd ≡ true)
        × (read_extensions loader junk icd ≡ some (with_extensions own icd, true))
      ⊎ (can_read own loader icd ≡ false)
        × (icd' : VkIcd) × (read_extensions loader junk icd ≡ some (icd', false))
        × (count_of_icd icd' ≡ count_of_icd icd)
  unfolding read_extensions
  read_extensions-cases = elim (Bool-cases (enumeration_address loader icd == 0)) [
    | inl missing ↦ inr (ground arith, icd, ground arith, refl)
    | inr there ↦
        let e =
          subst
            (λ g.
              enumeration_of loader g ≢ 0
              → Enumerates own (loader.call_enum_inst_exts (enumeration_of loader g)))
            (sym found) (b.enumerates icd.lib) (ground arith) in
        let small : uint32 (length own + length wsi_instance_extensions) ≡ length own + 2 =
          omega arith in
        elim (Option-cases (loader.malloc (length own + 2))) [
          | inl full ↦ inr (
            rw full (ground arith),
            record icd { extensions = record (icd.extensions) { instance_extensions = [] } },
            rw (there, e.counts junk, small, full) refl,
            refl,
          )
          | inr (block, given) ↦ inl (
            rw given (ground arith),
            ground (
              arith,
              there,
              e.counts junk,
              small,
              given,
              copy_extensions-whole e few block icd (b.sizes (length own + 2) block given),
            ),
          )
        ]
  ]

-- The pointers of a driver that is in use: the library that `dlopen` gave, the lookup that it exports,
-- and what that lookup gives by name. Those of the interface may be `NULL`.
pub record HasDriver (loader : Loader) (icd : VkIcd) : Type 0 where
  pub lib_there : icd.lib ≢ 0
  pub gipa_there : icd.get_proc_addr ≢ 0
  pub dev_there : icd.enum_dev_exts ≢ 0
  pub lib_is :
      (filename : String) × (loader.getenv ≡ some filename) × (icd.lib ≡ loader.dlopen filename)
  pub gipa_is : icd.get_proc_addr ≡ gipa_of loader icd.lib
  pub enum_dev_exts_is :
      icd.enum_dev_exts
      ≡ loader.call_get_proc_addr icd.get_proc_addr 0 "vkEnumerateDeviceExtensionProperties"
  pub interface_is : retrieve_interface loader icd ≡ icd

-- The driver is opened with the functions that are needed, or something of it is missing.
pub open_driver-cases :
    (own : List ExtensionProperties) (loader : Loader) (icd : VkIcd)
    → (icd' : VkIcd) × (count_of_icd icd' ≡ count_of_icd icd)
      × ((open_driver loader icd ≡ (icd', false)) × (is_usable own loader ≡ false)
          ⊎ (open_driver loader icd ≡ (icd', true))
            × (is_usable own loader ≡ can_read own loader icd')
            × HasDriver loader icd')
unfolding open_driver retrieve_functions retrieve_interface
open_driver-cases own loader icd = elim (Option-cases (loader.getenv)) [
  | inl unset ↦ (icd, refl, inl (ground arith, ground arith))
  | inr (filename, named) ↦ (
    (open_driver loader icd).0,
    ground arith,
    elim (Bool-cases ((open_driver loader icd).1)) [
      | inl opened ↦ inr (
        ground arith,
        ground arith,
        record {
          lib_there = ground arith;
          gipa_there = ground arith;
          dev_there = ground arith;
          lib_is = (filename, named, ground arith);
          gipa_is = ground arith;
          enum_dev_exts_is = ground arith;
          interface_is = ground arith;
        },
      )
      | inr closed ↦ inl (ground arith, ground arith)
    ],
  )
]
