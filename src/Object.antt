-- ===== src/Object.antt =====
-- object/: the container and output classes that the rest of the kernel is built from.
pub mod Queue
pub mod BBuffer
pub mod OStream
