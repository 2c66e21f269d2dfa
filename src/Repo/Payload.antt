-- ===== src/Repo/Payload.antt =====
-- The signed-payload constructors and the bundle id of crates/types/src/lib.rs. A payload is `none`
-- where the builder would panic on a field of 4 GiB or more.
pub mod Content
pub mod Unique
use freenet_git.Prelude.{
  ℕ, ◌-◌, ◌^◌, min, Option, none, some, List, [], ◌∷◌, ◌++◌, Bytes, bytes, length,
}
use freenet_git.BTreeMap.{BTreeMap}
use freenet_git.Crypto.{Crypto}
use freenet_git.Encoding.{wire_version}
use freenet_git.Encoding.LittleEndian.{to_le_bytes}
use freenet_git.Encoding.Signed.{
  Builder, ◌>>=◌, field_bytes, field_str, field_u32, field_u64, field_option_bytes, build,
}
use freenet_git.Encoding.Canonical as Canonical
use freenet_git.Encoding.Canonical.{Value, encode, text_entry}
use mathlib.Core.Option
use freenet_git.Repo.State.{
  RepoParams, WriterGrant, AclState, ObjectBundle, single_pack, chunked_pack,
}

unfoldable pub signed_payload_string_field : Bytes → Bytes → Bytes → ℕ → Option Bytes
signed_payload_string_field repo_key field_name value update_seq =
    build field_name
      λ b. do b ← field_bytes repo_key b; b ← field_str value b; field_u64 update_seq b

-- `for r in refs { b.field_str(r) }`.
unfoldable pub field_strs : List Bytes → Builder → Option Builder
field_strs [] b = some b
field_strs (r ∷ refs) b = do b ← field_str r b; field_strs refs b

-- `u32::try_from(n).unwrap_or(u32::MAX)`.
abbrev pub saturating_u32 : ℕ → ℕ
saturating_u32 n = min n (2 ^ 32 - 1)

unfoldable pub signed_payload_ref_list_field : Bytes → Bytes → List Bytes → ℕ → Option Bytes
signed_payload_ref_list_field repo_key field_name refs update_seq = build field_name λ b. do
  b ← field_bytes repo_key b
  b ← field_u32 (saturating_u32 (length refs)) b
  b ← field_strs refs b
  field_u64 update_seq b

-- `for (writer, grant) in &acl.grants { .. }`.
unfoldable pub field_grants : BTreeMap WriterGrant → Builder → Option Builder
field_grants [] b = some b
field_grants ((writer, grant) ∷ grants) b = do
  b ← field_bytes writer b
  b ← field_u64 grant.granted_at_epoch b
  b ← field_option_bytes (Option.map (to_le_bytes 8) grant.revoked_at_epoch) b
  field_grants grants b

unfoldable pub signed_payload_acl_field : Bytes → Bytes → AclState → ℕ → Option Bytes
signed_payload_acl_field repo_key field_name acl update_seq = build field_name λ b. do
  b ← field_bytes repo_key b
  b ← field_u64 acl.epoch b
  b ← field_u32 (saturating_u32 (length acl.grants)) b
  b ← field_grants acl.grants b
  field_u64 update_seq b

unfoldable pub signed_payload_optional_repo_key_field :
    Bytes → Bytes → Option Bytes → ℕ → Option Bytes
signed_payload_optional_repo_key_field repo_key field_name successor update_seq =
    build field_name
      λ b. do b ← field_bytes repo_key b; b ← field_option_bytes successor b; field_u64 update_seq b

unfoldable pub signed_payload_ref_entry : Bytes → Bytes → Bytes → ℕ → ℕ → Option Bytes
signed_payload_ref_entry repo_key ref_name target update_seq auth_epoch =
    build (bytes "ref-update") λ b. do
      b ← field_bytes repo_key b
      b ← field_str ref_name b
      b ← field_bytes target b
      b ← field_u64 update_seq b
      field_u64 auth_epoch b

unfoldable pub signed_payload_extension : Bytes → Bytes → Bytes → ℕ → Option Bytes
signed_payload_extension repo_key ext_key value update_seq = build (bytes "extension") λ b. do
  b ← field_bytes repo_key b
  b ← field_str ext_key b
  b ← field_bytes value b
  field_u64 update_seq b

-- The CBOR value whose hash is the bundle's id.
unfoldable pub bundle_value : ObjectBundle → Value
bundle_value (single_pack pack_hash size_bytes) = Canonical.map (
    text_entry (bytes "size_bytes") (Canonical.uint size_bytes) (
      text_entry (bytes "pack_hash") (Canonical.byte_string pack_hash)
        (text_entry (bytes "kind") (Canonical.text (bytes "single-pack")) Canonical.end)))
bundle_value (chunked_pack manifest_hash total_size chunk_count) = Canonical.map (
    text_entry (bytes "chunk_count") (Canonical.uint chunk_count) (
      text_entry (bytes "total_size") (Canonical.uint total_size) (
        text_entry (bytes "manifest_hash") (Canonical.byte_string manifest_hash)
          (text_entry (bytes "kind") (Canonical.text (bytes "chunked-pack")) Canonical.end))))

module _ (c : Crypto) where
  -- `ObjectBundle::id`.
  unfoldable pub id : ObjectBundle → Bytes
  id bundle = c.blake3 (encode (bundle_value bundle))

  unfoldable pub signed_payload_bundle_record : Bytes → ObjectBundle → ℕ → Option Bytes
  signed_payload_bundle_record repo_key bundle auth_epoch =
      let bundle_id = id bundle in
      build (bytes "object-bundle")
        λ b. do b ← field_bytes repo_key b; b ← field_bytes bundle_id b; field_u64 auth_epoch b

  -- The hasher is fed the parts in turn, which hashes their concatenation.
  unfoldable pub params_repo_key : RepoParams → Bytes → Bytes
  params_repo_key params owner = c.blake3 (wire_version ++ (params.prefix ++ owner))
