-- ===== src/Lib.antt =====
-- Glycin decodes and edits images in sandboxed processes. This development models the code that works
-- on pixels, the code that decides what is kept and accepted, and the way of a frame from a decoder
-- to the client: the pixel formats and the choice of one, the editing of images in memory, the
-- loader of the image crate with its thread for animations and its editors, the objects that loaders and editors
-- serve, what the client makes of a frame and of an error, the configuration, the pool of
-- processes and the commands that start them.
--
-- The parts and the files:
--   Format, with Format/Types, Format/Tables, Format/Extended and Format/Transform:
--     glycin-common/src/memory_format.rs, the enums, the tables of each format, and the conversion
--     of one pixel (`transform`, `to_f32`, `from_f32`). Format/Laws is about the tables.
--   Selection: glycin-common/src/memory_format_selection.rs. Selection/Sort has the stable sort of
--     the standard library, Selection/Rank and Selection/Listed lemmas, Selection/Best the choice.
--   Operations: glycin-common/src/operations.rs, operations and the orientation they add up to.
--   Editing: glycin-utils/src/editing.rs, with a file for each file of glycin-utils/src/editing:
--     Editing/Orientation (orientation.rs), Editing/Clip (clip.rs), Editing/Apply (operations.rs) and
--     Editing/ChangeMemoryFormat (change_memory_format.rs). A function that changes a frame and
--     a buffer takes both and returns both.
--   SafeMath: glycin-utils/src/safe_math.rs. Frame: glycin-utils/src/dbus_types.rs.
--   SharedMemory: glycin-common/src/shared_memory.rs, memories by their contents.
--   Errors: glycin-utils/src/error.rs, and Errors/Client: glycin/src/error.rs.
--   ImageRs: glycin-utils/src/image_rs.rs, the tables of colour types, and the frame and details of a
--     decoder.
--   ImageLoader: glycin-loaders/glycin-image-rs/src/main.rs. ImageLoader/Worker has the turns of the
--     thread that decodes an animation, ImageLoader/Requests the loader with its answers, and
--     ImageLoader/Threads the steps of both threads, which park, wake and send; ImageLoader/Threads/Loader
--     relates these to the loader with one turn for each request.
--   ImageEditor: glycin-loaders/glycin-image-rs/src/editor.rs (ImageEditor/Formats and
--     ImageEditor/Create) with the files of editor, ImageEditor/Jpeg and ImageEditor/Png. ImageEditor/Sparse compares sparse edits with
--     complete ones, ImageEditor/Turned is about the orientation of a file, ImageEditor/Encodable about
--     the format that is encoded.
--   EditorApi: glycin/src/api_editor.rs, what the client makes of the result of an edit.
--   Dbus: glycin-utils/src/dbus_loader_api.rs (Dbus/Loader) and glycin-utils/src/dbus_editor_api.rs
--     (Dbus/Editor), the images that a process serves and the calls of one.
--   Texture: `validate_frame` and `remove_stride_if_needed` of glycin/src/dbus.rs, and Remote: its
--     `request_frame`, which runs them, with glycin/src/orientation.rs; Remote/Colors is about its
--     colours, Remote/Accepted about its last conversion. Icc: glycin/src/icc.rs.
--   Config: glycin/src/config.rs, the groups of a key file, and Config/Files the directories and files.
--   Creator: glycin/src/api_creator.rs, the frames and options of an image to be encoded.
--   Pool: glycin/src/pool.rs. An operation under a lock is one function from a pool to a pool, and
--     Pool/Invariant has the relation of all their sequences.
--   Sandbox: the memory limit of glycin/src/sandbox.rs and the choice of a mechanism in
--     glycin/src/api_common.rs. Sandbox/Command: the commands of sandbox.rs,
--     with Sandbox/Names and Sandbox/Filters about the filter of system calls.
--   Base has lists, results and loops, Base/Dict maps, Math the checked arithmetic, Tests and its
--     children concrete inputs.
--
-- Bytes and unsigned integers are natural numbers; the bound of a type is written where the code checks
-- or wraps (`u32_mod`, `usize_mod`, `i64_mod`, for a 64-bit target). A Rust call comes to a value, an
-- error or a panic (`Outcome`); indexing out of bounds is a panic. Loops run over a counted range or
-- a list. Only `chunks_mut` has fuel, the length of the buffer, which is enough as no part is
-- empty. The thread of an animation never returns; it is modelled by its turns, from one park to
-- the next, so that no number of turns is too large.
--
-- Parameters: `Orientation` of gufo_common (`Orientations`, with its laws `IsOrientation`), `Checked` of
-- gufo_common (`Checked`, `IsChecked`), the conversion to i64 of gufo_common, the cicp and metadata that
-- gufo reads, floats and byte order (`Floats`), a selection of formats (its `contains`), the decoders of
-- the image crate (`Codecs`) and its encoders (`Encoders`), the libraries for the parts of JPEG and PNG
-- files (`JpegLibrary`, `PngLibrary`), lcms2 (`Lcms`), the key files of GLib (`KeyFile`), directories and
-- variables of the environment, the mapping of new memory, what D-Bus makes of a new object, the numbers
-- of libseccomp, the texts of errors, what spawning a process comes to, the microseconds of a delay, and
-- the product with 0.8 in the memory limit.
--
-- Not modelled: the transport of D-Bus, files, sealing and the start of processes; the coding of
-- messages by serde; the loaders for SVG, HEIF, JPEG XL, JPEG 2000 and raw images, with the editors
-- of HEIF and JPEG XL, which call decoding libraries; the asynchronous calls of api_loader.rs and
-- api_editor.rs; the mounts of the system in sandbox.rs; the cache of the configuration; and the bindings.
-- The rows that `change_memory_format` fills in parallel, and the parts that threads transform by
-- a profile, are separate, and are changed in order here. A mapped file is resized like a vector.
pub mod Base
pub mod Math
pub mod EditorApi
pub mod Errors
pub mod SharedMemory
pub mod Format
pub mod Selection
pub mod Operations
pub mod SafeMath
pub mod Frame
pub mod Texture
pub mod Icc
pub mod Creator
pub mod Pool
pub mod Sandbox
pub mod Config
pub mod Remote
pub mod Dbus
pub mod ImageRs
pub mod ImageEditor
pub mod ImageLoader
pub mod Tests
pub mod Editing
