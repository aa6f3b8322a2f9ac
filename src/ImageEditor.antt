-- ===== src/ImageEditor.antt =====
-- `glycin-loaders/glycin-image-rs/src/editor.rs`, the editors of the image-rs process.
pub mod Jpeg
pub mod Sparse
pub mod Turned
pub mod Png
pub mod Formats
pub mod Create
pub mod Encodable
