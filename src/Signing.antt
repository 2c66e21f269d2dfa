-- ===== src/Signing.antt =====
-- crates/types/src/signing.rs and crates/freenet-git/src/state_init.rs: what the owner's tools sign.
-- A signed value is `none` where building the payload would panic.
pub mod TipKeys
pub mod Accepted
pub mod Tips
use freenet_git.Prelude.{ℕ, Option, none, some, List, [], Bytes, bytes, ◌++◌}
use freenet_git.BTreeMap.{BTreeMap}
use freenet_git.Crypto.{Crypto}
use freenet_git.Signing.TipKeys.{bundle_tip_extension_key}
use freenet_git.Encoding.Signed.{◌>>=◌}
use freenet_git.Repo.State.{
  RepoParams, SignedField, AclState, RefEntry, ObjectBundle, ObjectBundleRecord, ExtensionEntry,
  RepoState, default_state,
}
use freenet_git.Repo.Payload.{
  signed_payload_string_field, signed_payload_ref_list_field, signed_payload_acl_field,
  signed_payload_optional_repo_key_field, signed_payload_ref_entry, signed_payload_extension,
  signed_payload_bundle_record, params_repo_key,
}

module _ (c : Crypto) (params : RepoParams) (key : c.SigningKey) where
  -- `signature_domain_key(params, &key.verifying_key().to_bytes())`.
  abbrev pub domain_key : Bytes
  domain_key = params_repo_key c params (c.verifying_key key)

  unfoldable pub sign_string_field : Bytes → Bytes → ℕ → Option (SignedField Bytes)
  sign_string_field field_name value update_seq = do
    payload ← signed_payload_string_field domain_key field_name value update_seq
    some (record { value = value; update_seq = update_seq; signature = c.sign key payload })

  unfoldable pub sign_ref_list_field : Bytes → List Bytes → ℕ → Option (SignedField (List Bytes))
  sign_ref_list_field field_name value update_seq = do
    payload ← signed_payload_ref_list_field domain_key field_name value update_seq
    some (record { value = value; update_seq = update_seq; signature = c.sign key payload })

  unfoldable pub sign_acl_field : Bytes → AclState → ℕ → Option (SignedField AclState)
  sign_acl_field field_name value update_seq = do
    payload ← signed_payload_acl_field domain_key field_name value update_seq
    some (record { value = value; update_seq = update_seq; signature = c.sign key payload })

  unfoldable pub sign_optional_repo_key_field :
      Bytes → Option Bytes → ℕ → Option (SignedField (Option Bytes))
  sign_optional_repo_key_field field_name value update_seq = do
    payload ← signed_payload_optional_repo_key_field domain_key field_name value update_seq
    some (record { value = value; update_seq = update_seq; signature = c.sign key payload })

  unfoldable pub sign_ref_entry : Bytes → Bytes → ℕ → ℕ → Option RefEntry
  sign_ref_entry ref_name target update_seq auth_epoch = do
    payload ← signed_payload_ref_entry domain_key ref_name target update_seq auth_epoch
    some (record {
      target = target;
      update_seq = update_seq;
      updater = c.verifying_key key;
      auth_epoch = auth_epoch;
      signature = c.sign key payload;
    })

  unfoldable pub sign_bundle_record : ObjectBundle → ℕ → Option ObjectBundleRecord
  sign_bundle_record bundle auth_epoch = do
    payload ← signed_payload_bundle_record c domain_key bundle auth_epoch
    some (record {
      bundle = bundle;
      added_by = c.verifying_key key;
      auth_epoch = auth_epoch;
      signature = c.sign key payload;
    })

  unfoldable pub sign_extension : Bytes → Bytes → ℕ → Option ExtensionEntry
  sign_extension ext_key value update_seq = do
    payload ← signed_payload_extension domain_key ext_key value update_seq
    some (record { value = value; update_seq = update_seq; signature = c.sign key payload })

  -- The extension key and the entry.
  unfoldable pub sign_bundle_tip_extension : Bytes → Bytes → ℕ → Option (Bytes × ExtensionEntry)
  sign_bundle_tip_extension bundle_id tip update_seq = do
    let ext_key = bundle_tip_extension_key bundle_id
    entry ← sign_extension ext_key tip update_seq
    some (ext_key, entry)

  unfoldable pub initial_repo_state : Bytes → Bytes → Bytes → Option RepoState
  initial_repo_state name description default_branch = do
    name ← sign_string_field (bytes "name") name 1
    description ← sign_string_field (bytes "description") description 1
    default_branch ← sign_string_field (bytes "default_branch") default_branch 1
    force_push_allowed ← sign_ref_list_field (bytes "force_push_allowed") [] 1
    acl ← sign_acl_field (bytes "acl") (record { epoch = 0; grants = [] }) 1
    upgrade ← sign_optional_repo_key_field (bytes "upgrade") none 1
    some (record default_state {
      owner = c.verifying_key key;
      name = some name;
      description = some description;
      default_branch = some default_branch;
      force_push_allowed = some force_push_allowed;
      acl = some acl;
      upgrade = some upgrade;
    })
