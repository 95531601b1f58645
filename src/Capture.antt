-- ===== src/Capture.antt =====
-- internal/capture: the reader of the kernel's ring buffer.
pub mod Ring
