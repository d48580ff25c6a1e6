-- ===== src/Layout.antt =====
-- zwwm/src/layout: where the windows of a tag go.
pub mod Rect
pub mod Fibonacci
pub mod MasterStack
mod Tests
