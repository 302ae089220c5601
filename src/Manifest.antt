-- ===== src/Manifest.antt =====
-- internal/manifest: the desired state that dockform reads from its YAML files.
pub mod Key
pub mod Types
pub mod Merge
pub mod Interpolate
pub mod Machine
pub mod BindMounts
pub mod Inline
pub mod Normalize
pub mod Loader
pub mod Discover
pub mod Validate
pub mod Tests
