-- ===== src/Repo/Validate.antt =====
-- `validate_state` of crates/types/src/lib.rs: every check that a peer makes on a candidate state.
pub mod Checks
pub mod Authorized
pub mod Exact
use Prim.Native.String.{String}
use freenet_git.Prelude.{ℕ, Option, none, some, List, [], ◌∷◌, Bytes, bytes, length, take, min}
use freenet_git.Prelude.{Bool, true, false, not, ◌||◌, ltb, if◌then◌else◌}
use freenet_git.BTreeMap.{BTreeMap}
use freenet_git.BTreeMap.Order.{eqb}
use freenet_git.Crypto.{Crypto}
use freenet_git.Outcome.{Result, ok, err, ◌>>=◌, ◌>>◌, expect, ok_or}
use freenet_git.Repo.State.{
  RepoParams, SignedField, AclState, RefEntry, ObjectBundleRecord, ExtensionEntry, RepoState,
  ValidateError, invalid_signature, non_owner_signer, bundle_id_mismatch, invalid_prefix_chars,
  field_too_long, invalid_prefix_length, prefix_mismatch, max_name_bytes, max_description_bytes,
  max_ref_name_bytes, max_extension_key_bytes, max_extension_value_bytes, min_prefix_len,
  max_prefix_len,
}
use freenet_git.Repo.Payload.{
  signed_payload_string_field, signed_payload_ref_list_field, signed_payload_acl_field,
  signed_payload_optional_repo_key_field, signed_payload_ref_entry, signed_payload_extension,
  signed_payload_bundle_record, id, params_repo_key,
}

-- The checks return nothing.
abbrev pub Check : Type 0
Check = Result ValidateError (Unit {0})

unfoldable pub check_size : String → ℕ → ℕ → Check
check_size field len max = if ltb max len then err (field_too_long field len max) else ok tt

-- `if let Some(field) = &state.field { .. }`.
abbrev pub if_some : {A : Type 0} → Option A → (A → Check) → Check
if_some none f = ok tt
if_some (some a) f = f a

-- `for (k, v) in &map { .. }`.
unfoldable pub for_entries : {V : Type 0} → (Bytes → V → Check) → BTreeMap V → Check
for_entries f [] = ok tt
for_entries f ((k, v) ∷ m) = do f k v; for_entries f m

module _ (c : Crypto) where
  open c use {key_from_slice, sig_from_slice, verify, bs58_encode, bs58_decode}

  unfoldable pub pubkey_prefix : Bytes → ℕ → Bytes
  pubkey_prefix owner len =
      let encoded = bs58_encode owner in take (min len (length encoded)) encoded

  -- `RepoParams::from_owner`.
  unfoldable pub from_owner : Bytes → ℕ → RepoParams
  from_owner owner len = record { prefix = pubkey_prefix owner len }

  unfoldable pub verify_signature : Bytes → Bytes → Bytes → String → Check
  verify_signature payload signer signature label = do
    pk ← ok_or (invalid_signature label) (key_from_slice signer)
    sig ← ok_or (invalid_signature label) (sig_from_slice signature)
    if verify pk payload sig then ok tt else err (invalid_signature label)

  -- A payload that is built, and then verified.
  abbrev pub verify_payload : Option Bytes → Bytes → Bytes → String → Check
  verify_payload payload signer signature label = do
    bs ← expect payload
    verify_signature bs signer signature label

  unfoldable pub verify_signed_field_string :
      Bytes → Bytes → Bytes → SignedField Bytes → String → Check
  verify_signed_field_string repo_key field_name owner field label =
      verify_payload (signed_payload_string_field repo_key field_name field.value field.update_seq)
        owner field.signature label

  unfoldable pub verify_signed_field_ref_list :
      Bytes → Bytes → Bytes → SignedField (List Bytes) → String → Check
  verify_signed_field_ref_list repo_key field_name owner field label =
      verify_payload
        (signed_payload_ref_list_field repo_key field_name field.value field.update_seq) owner
        field.signature label

  unfoldable pub verify_signed_field_acl :
      Bytes → Bytes → Bytes → SignedField AclState → String → Check
  verify_signed_field_acl repo_key field_name owner field label =
      verify_payload (signed_payload_acl_field repo_key field_name field.value field.update_seq)
        owner field.signature label

  unfoldable pub verify_signed_field_optional_repo_key :
      Bytes → Bytes → Bytes → SignedField (Option Bytes) → String → Check
  verify_signed_field_optional_repo_key repo_key field_name owner field label =
      verify_payload
        (signed_payload_optional_repo_key_field repo_key field_name field.value field.update_seq)
        owner field.signature label

  unfoldable pub verify_ref_entry : Bytes → Bytes → RefEntry → Check
  verify_ref_entry repo_key ref_name entry =
      verify_payload
        (signed_payload_ref_entry repo_key ref_name entry.target entry.update_seq entry.auth_epoch)
        entry.updater entry.signature "ref entry"

  unfoldable pub verify_bundle_record : Bytes → ObjectBundleRecord → Check
  verify_bundle_record repo_key record_ =
      verify_payload (signed_payload_bundle_record c repo_key record_.bundle record_.auth_epoch)
        record_.added_by record_.signature "bundle record"

  unfoldable pub verify_extension_entry : Bytes → Bytes → Bytes → ExtensionEntry → Check
  verify_extension_entry repo_key ext_key owner entry =
      verify_payload (signed_payload_extension repo_key ext_key entry.value entry.update_seq) owner
        entry.signature "extension entry"

  -- The bodies of the three loops of `validate_state`.
  unfoldable pub validate_ref : Bytes → Bytes → Bytes → RefEntry → Check
  validate_ref repo_key owner ref_name entry = do
    check_size "ref name" (length ref_name) max_ref_name_bytes
    if not (eqb entry.updater owner) then err non_owner_signer else ok tt
    verify_ref_entry repo_key ref_name entry

  unfoldable pub validate_bundle : Bytes → Bytes → Bytes → ObjectBundleRecord → Check
  validate_bundle repo_key owner bundle_id record_ = do
    if not (eqb (id c record_.bundle) bundle_id) then err bundle_id_mismatch else ok tt
    if not (eqb record_.added_by owner) then err non_owner_signer else ok tt
    verify_bundle_record repo_key record_

  unfoldable pub validate_extension : Bytes → Bytes → Bytes → ExtensionEntry → Check
  validate_extension repo_key owner ext_key entry = do
    check_size "extension key" (length ext_key) max_extension_key_bytes
    check_size "extension value" (length entry.value) max_extension_value_bytes
    verify_extension_entry repo_key ext_key owner entry

  unfoldable pub validate_state : RepoParams → RepoState → Check
  validate_state params state =
      let repo_key = params_repo_key c params state.owner in
      let owner = state.owner in
      let len = length params.prefix in
      let actual = pubkey_prefix owner len in
      do
        if ltb len min_prefix_len || ltb max_prefix_len len
            then err (invalid_prefix_length len min_prefix_len max_prefix_len)
            else ok tt
        _ ← ok_or invalid_prefix_chars (bs58_decode params.prefix)
        if not (eqb actual params.prefix) then err (prefix_mismatch params.prefix actual) else ok tt
        if_some state.name λ field. do
          check_size "name" (length field.value) max_name_bytes
          verify_signed_field_string repo_key (bytes "name") owner field "name"
        if_some state.description λ field. do
          check_size "description" (length field.value) max_description_bytes
          verify_signed_field_string repo_key (bytes "description") owner field "description"
        if_some state.default_branch λ field. do
          check_size "default_branch" (length field.value) max_ref_name_bytes
          verify_signed_field_string repo_key (bytes "default_branch") owner field "default_branch"
        if_some state.force_push_allowed λ field.
            verify_signed_field_ref_list repo_key (bytes "force_push_allowed") owner field
              "force_push_allowed"
        if_some state.acl λ field. verify_signed_field_acl repo_key (bytes "acl") owner field "acl"
        if_some state.upgrade λ field.
            verify_signed_field_optional_repo_key repo_key (bytes "upgrade") owner field "upgrade"
        for_entries (validate_ref repo_key owner) state.refs
        for_entries (validate_bundle repo_key owner) state.object_index
        for_entries (validate_extension repo_key owner) state.extensions
