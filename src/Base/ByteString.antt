-- ===== src/Base/ByteString.antt =====
-- The byte strings of Go's packages bytes, strconv and fmt that the program uses.
mod Laws
pub use Laws.*
mod Defs
unfoldable pub use Defs.{
  Bytes, codes, bytes_eq, has_prefix, has_suffix, before_slash, decimal, lt_bytes,
}
