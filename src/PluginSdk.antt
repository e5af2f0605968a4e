-- ===== src/PluginSdk.antt =====
-- packages/plugin-sdk: the ports, the in-memory canonical store and the lifecycle records over it.
pub mod Store
pub mod System
pub mod Lifecycle
