-- ===== src/NullDriver.antt =====
-- null-driver/null-driver.c: a driver that does nothing, which the layer can be run on.
pub mod Tables
pub mod Lookup
pub mod Enumerations
pub mod Layered
pub mod Loaded
pub mod Heap
pub mod Objects
pub mod Commands
pub mod Device
pub mod Memory
mod Tests
