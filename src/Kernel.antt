-- ===== src/Kernel.antt =====
-- pkg/kernel: the plugin registry, the loader and the application that it builds.
pub mod Sort
mod Tests
pub mod Registry
pub mod Topo
pub mod Loader
pub mod App
