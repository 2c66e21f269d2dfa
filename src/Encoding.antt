-- ===== src/Encoding.antt =====
-- crates/encoding: the byte formats that the contract and the helpers must agree on.
pub mod LittleEndian
pub mod Signed
pub mod Canonical
use freenet_git.Prelude.{Bytes, bytes}

-- The wire-format version in every domain prefix.
abbrev pub wire_version : Bytes
wire_version = bytes "v1"
