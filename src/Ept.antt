-- ===== src/Ept.antt =====
-- NovaHypervisor/Ept.cpp: the memory types of the host, and the tables that translate the guest's
-- physical addresses.
pub mod Mtrr
pub mod Entry
pub mod Table
pub mod Hooks
pub mod PageHook
mod Tests
