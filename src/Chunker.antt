-- ===== src/Chunker.antt =====
-- internal/engine/embed/chunker.go: the chunks of a document, and the requests that they fill.
-- A text is its bytes, an offset counts bytes, and `text[a:b]` is a slice of the list.
pub mod Split
pub mod Tiling
pub mod Slices
pub mod Texts
pub mod Batches
pub mod Examples
