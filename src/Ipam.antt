-- ===== src/Ipam.antt =====
-- The package pkg/ipam: pools of free IP addresses.
pub mod Address
pub mod Alloc
pub mod Chunk
pub mod Intersect
pub mod Cache
pub mod Cidr
mod Examples
