-- ===== src/Registries.antt =====
-- src/core/registry: the registries of values by key.
pub mod Single
pub mod Multi
