-- ===== src/Desktop.antt =====
-- apps/desktop/src-tauri/src: the lifecycle of the desktop host.
pub mod Lifecycle
mod Tests
