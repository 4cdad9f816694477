-- ===== src/Tests.antt =====
-- Runs on small inputs, and the theorems at concrete data. The digest of a test is the text itself.
mod DirTests
mod SchemaTests
mod RegistryTests
mod ThreadTests
mod WaitingTests
mod SessionTests
mod ManifestTests
mod YamlTests
mod CopyTests
mod SyncTests
mod StoreTests
mod RoundTests
mod ListingTests
mod TreeTests
mod ClientTests
mod CommandTests
