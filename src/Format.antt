-- ===== src/Format.antt =====
-- The pixel formats of `glycin-common/src/memory_format.rs`.
pub mod Types
pub mod Tables
pub mod Extended
pub mod Laws
pub mod Transform
