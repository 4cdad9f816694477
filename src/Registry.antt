-- ===== src/Registry.antt =====
-- The client of a registry's HTTP interface, src/lib/OCI/Registry/Client.cpp.
pub mod Location
pub mod Net
pub mod Challenge
pub mod Auth
pub mod Lifecycle
pub mod Queries
pub mod Manifests
pub mod Fetch
pub mod AsClient
pub mod Uploads
pub mod Parts
pub mod Blobs
pub mod Listing
