-- ===== src/Plugin.antt =====
-- Packages plugin, plugin/entities, plugin/values and plugin/filesystem: how plugins are named,
-- pinned, and looked up.
pub mod Spec
pub mod Values
pub mod Lockfile
pub mod Repository
pub mod Service
