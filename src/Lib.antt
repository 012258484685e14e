-- ===== src/Lib.antt =====
-- A model of vulkan-wsi-tizen, the window system integration (WSI) layer of Vulkan for Tizen. The
-- layer stands between the loader of Vulkan and a driver (ICD). It answers the calls of Vulkan that
-- concern displays, surfaces and swapchains, by means of the Tizen libraries TPL, TDM and TBM, and
-- passes all other calls on to the driver.
--
-- Files and code:
--   Common        names, lists, Boolean tests and bits that all parts share; nothing of the code.
--   VkMap         src/utils/map.c and the struct in src/utils/utils.h: the hash table `vk_map_t`.
--                 VkMap has the table and its operations under their names in C; VkMap/Keys has the
--                 three kinds of key. VkMap/Chain, Methods, Set, Clear, Ownership and Keys/Laws
--                 are the proofs: the specification is a function from keys to data (`view`),
--                 and the data that the table owns.
--   Enumerate     the protocol by which the calls of Vulkan hand out arrays: a call without an array
--                 gives the count, a call with one fills it. `Enumerates xs query` is the contract
--                 that the enumerations below are proved to keep; Enumerate/Copy has the loop
--                 and the `memcpy` that they use.
--   Display       src/wsi/display.c and the structs of src/wsi/wsi.h. Display has the data and the
--                 enumerations (proofs in Display/Listing); Display/Modes has
--                 `vk_CreateDisplayModeKHR`; Display/Setup reads the outputs and layers of TDM
--                 (proofs in Ready, Planes, Adding, Outputs, Overflow); Display/Capabilities has
--                 `vk_GetDisplayPlaneCapabilitiesKHR`.
--   EntryPoints   src/wsi/entry-points.c: the table of functions and the three lookups by name.
--   Extensions    src/wsi/extensions.c: the extensions of the instance and of a device.
--   Formats       the tables of pixel formats of src/wsi/surface.c and src/wsi/swapchain.c.
--   Surface       src/wsi/surface.c: formats and present modes of a surface; the support queries are
--                 in Surface/Support, the capabilities in Surface/CapabilityQuery (proofs in
--                 Surface/Capabilities).
--   Swapchain     src/wsi/swapchain.c: swapchains over a backend that is a parameter; Create, Destroy,
--                 Images and Present have the proofs.
--   TdmBackend    src/wsi/swapchain_tdm.c, the backend on a display. TdmBackend has present, acquire and the
--                 commit callback; Timeout and Wait the waiting for a buffer; Locks and Stuck the
--                 mutexes. Timelines has runs of a swapchain as a step relation, and what TBM
--                 documents of the data of a buffer; Moves, Balance and Acquire (with Handout) keep
--                 the invariant of Fences, Unadded is about the timestamps. SetUp has
--                 `swapchain_tdm_init`, `get_buffers` and `deinit`, Effects and Lifecycle their proofs.
--   TplBackend    src/wsi/swapchain_tpl.c, the backend by TPL, with `vk_get_tpl_display` of src/wsi/wsi.h.
--                 Lifecycle and SetUp count what is taken and given back; Ends and Creation put the backend
--                 under `vk_CreateSwapchainKHR`; Modes is about the present modes.
--   IcdLoader     src/wsi/icd.c: `module_init`, `module_fini` and the one physical device. Driver and Loading
--                 follow `module_init`, Latch the calls of `vk_get_physical_device`.
--   NullDriver    src/null-driver/null-driver.c, a driver that only hands out objects. Tables and Lookup have
--                 the functions by name, Enumerations the extensions; Heap is the memory; Objects
--                 has the functions that create one object (Calls the entry points, Promises and
--                 Creation what each of them leaves, Sequence many calls), Commands those that create
--                 several, Device the devices, Memory the memory of buffers. Layered puts the entry points
--                 of EntryPoints on this driver, Loaded `module_init`.
--   Allocator     src/wsi/allocator.c: the callbacks for memory.
--   LinkedList    the ring `vk_list_t` of src/utils/utils.h on a heap of nodes. Ring has the predicate
--                 that gives the list of a head; Rotation, Operations, Removal, Lists and
--                 Splice the proofs.
-- A function keeps its name in the spelling of this language, so that `vk_CreateSwapchainKHR` is
-- `vk_create_swapchain_khr`; the loops of a function are definitions of their own, named for what they
-- do. How the parts meet: the surfaces and the initialisation use the data of Display; the formats that
-- a surface lists are those that `get_tbm_format` of the swapchains takes; the enumeration of device
-- extensions is a client of the contract `Enumerates` on the side of the driver, and implements it, and so
-- does `module_init`; the null driver keeps the contract, so that what is stated for any such driver holds for
-- the layer on top of it. The initialisation of the displays is the last step of `module_init`.
--
-- How the code is rendered. A result `none` of an operation is undefined behaviour of the C code: a read
-- or a write outside an array, or a call through `NULL`. Errors are values of `VkResult`. What a call
-- changes through a pointer is part of its result, with the array of the caller as a list. Integers are
-- natural numbers; where the C code can wrap, the remainder is written out. Memory that is given out, and
-- freed, is in the results as lists of calls or events. A handle that is an address is a block with an
-- index.
--
-- Parameters. The functions of TPL, TDM, TBM, the driver, `malloc` and its kin, `strcmp` and the
-- signedness of `char` are arguments of the definitions. What a theorem needs of them is a hypothesis,
-- such as that the driver keeps the contract of enumerations. What a variable or an array that was never
-- set happens to hold, where the code uses it, is an argument too, or a fault where it bounds a loop.
--
-- Bounds. There is no fuel: every loop of the code that is modelled counts to a bound that is known
-- before it, or walks along a list, and is structural recursion on that number or list.
--
-- Runs and threads. The calls of the TDM backend are each taken as one step, in any order, with the state
-- of the mutexes at their start; a call that would wait for ever has the value `blocks` or `sleeps`, and
-- the wake-ups of a waiting acquire are a list that is an argument.
--
-- The memory of the null driver. A function `gives` says which calls of `malloc` succeed, in the order of the
-- calls, so that a theorem for any `gives` is one for every way of running out of memory. A freed block is
-- not given out again, and the order of the addresses stands for nothing.
--
-- Not modelled: of the null driver the functions with an empty body (the commands, and all but one of those
-- that destroy an object), those that only return `VK_SUCCESS`, and the queries that store constants. Where
-- the linker puts a function, and what is called at other addresses, are parameters. Logging, the samples and
-- the headers of Vulkan have no logic of the layer.
pub mod Common
pub mod VkMap
pub mod Enumerate
pub mod Display
pub mod EntryPoints
pub mod Extensions
pub mod Formats
pub mod Surface
pub mod Swapchain
pub mod TdmBackend
pub mod TplBackend
pub mod LinkedList
pub mod NullDriver
pub mod IcdLoader
pub mod Allocator
