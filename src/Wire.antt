-- ===== src/Wire.antt =====
-- pkg/protowire: reader.go and writer.go. A Reader is the list of the bytes that it has not read, so
-- a read gives its result and the reader after it; a Writer is the list of the bytes it holds.
pub mod Reader
pub mod Writer
pub mod Varints
pub mod Fields
