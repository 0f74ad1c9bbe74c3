-- ===== src/Tests.antt =====
-- Concrete devices, caches, tags and states, and the theorems applied to them.
mod Device
mod Utility
mod Gstate
mod BlockDevices
mod Allocator
mod DeviceWrites
mod Index
mod Metadata
mod Toplevel
mod Commit
mod General
