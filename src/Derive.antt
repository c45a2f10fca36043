-- ===== src/Derive.antt =====
-- derive/src: the code that the macro `ByteRepr` generates, as functions. A token stream is the
-- function that it computes, so that generating code and running it are one step.
pub mod Bytes
pub mod Length
pub mod Field
pub mod Value
pub mod Fields
pub mod Variants
pub mod Patch
pub mod Access
pub mod Codec
pub mod RoundTrip
pub mod Twice
pub mod Refused
pub mod Untrusted
pub mod Static
