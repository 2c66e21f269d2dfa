-- ===== src/Repo/State.antt =====
-- The data types of crates/types/src/lib.rs. Arrays, vectors and strings of bytes are byte strings;
-- a `BTreeMap` is its entries in key order.
use freenet_git.Prelude.{ℕ, Option, none, List, [], Bytes, replicate}
use freenet_git.BTreeMap.{BTreeMap}
use freenet_git.BTreeMap.Laws.{IsSorted}
use Prim.Native.String.{String}

-- `mod limits`.
abbrev pub max_name_bytes : ℕ
max_name_bytes = 256

abbrev pub max_description_bytes : ℕ
max_description_bytes = 4096

abbrev pub max_ref_name_bytes : ℕ
max_ref_name_bytes = 256

abbrev pub max_extension_key_bytes : ℕ
max_extension_key_bytes = 256

abbrev pub max_extension_value_bytes : ℕ
max_extension_value_bytes = 65536

abbrev pub min_prefix_len : ℕ
min_prefix_len = 4

abbrev pub max_prefix_len : ℕ
max_prefix_len = 32

abbrev pub default_prefix_len : ℕ
default_prefix_len = 12

pub record RepoParams : Type 0 where
  pub prefix : Bytes

pub record SignedField (T : Type 0) : Type 0 where
  pub value : T
  pub update_seq : ℕ
  pub signature : Bytes

pub record WriterGrant : Type 0 where
  pub granted_at_epoch : ℕ
  pub revoked_at_epoch : Option ℕ

pub record AclState : Type 0 where
  pub epoch : ℕ
  pub grants : BTreeMap WriterGrant

pub record RefEntry : Type 0 where
  pub target : Bytes
  pub update_seq : ℕ
  pub updater : Bytes
  pub auth_epoch : ℕ
  pub signature : Bytes

pub data ObjectBundle : Type 0 where
  -- The hash of the pack and its size.
  single_pack : Bytes → ℕ → ObjectBundle
  -- The hash of the manifest, the total size and the number of chunks.
  chunked_pack : Bytes → ℕ → ℕ → ObjectBundle

pub record ObjectBundleRecord : Type 0 where
  pub bundle : ObjectBundle
  pub added_by : Bytes
  pub auth_epoch : ℕ
  pub signature : Bytes

pub record ExtensionEntry : Type 0 where
  pub value : Bytes
  pub update_seq : ℕ
  pub signature : Bytes

pub record RepoState : Type 0 where
  pub owner : Bytes
  pub name : Option (SignedField Bytes)
  pub description : Option (SignedField Bytes)
  pub default_branch : Option (SignedField Bytes)
  pub force_push_allowed : Option (SignedField (List Bytes))
  pub acl : Option (SignedField AclState)
  pub upgrade : Option (SignedField (Option Bytes))
  pub refs : BTreeMap RefEntry
  pub object_index : BTreeMap ObjectBundleRecord
  pub extensions : BTreeMap ExtensionEntry

-- `RepoState::default()`.
abbrev pub default_state : RepoState
default_state = record {
  owner = replicate 32 0;
  name = none;
  description = none;
  default_branch = none;
  force_push_allowed = none;
  acl = none;
  upgrade = none;
  refs = [];
  object_index = [];
  extensions = [];
}

pub data ValidateError : Type 0 where
  decode_params decode_state invalid_signature non_monotonic : String → ValidateError
  non_owner_signer bundle_id_mismatch invalid_prefix_chars : ValidateError
  -- The field, its length and the maximum.
  field_too_long : String → ℕ → ℕ → ValidateError
  -- The length, the minimum and the maximum.
  invalid_prefix_length : ℕ → ℕ → ℕ → ValidateError
  -- The prefix expected and the actual one.
  prefix_mismatch : Bytes → Bytes → ValidateError

-- The three maps of a state hold their keys in order, as a `BTreeMap` does.
pub record IsOrdered (s : RepoState) : Type 0 where
  pub refs : IsSorted s.refs
  pub object_index : IsSorted s.object_index
  pub extensions : IsSorted s.extensions
