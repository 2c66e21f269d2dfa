-- ===== src/Repo/Merge.antt =====
-- `merge_state` and `update_state` of crates/types/src/lib.rs: the CRDT join of two states.
pub mod Pick
pub mod Lookup
pub mod Join
pub mod Laws
pub mod Newer
pub mod Valid
use Prim.Native.Nat.Ordering.{lt, eq, gt}
use freenet_git.Prelude.{ℕ, Option, none, some, List, [], ◌∷◌, Bytes, Bool, true, false, compare}
use freenet_git.Prelude.{if◌then◌else◌}
use freenet_git.BTreeMap.{BTreeMap, get, insert, remove}
use freenet_git.BTreeMap.Order.{cmp}
use freenet_git.Crypto.{Crypto}
use freenet_git.Outcome.{Result, ok, err, map_err, ◌>>=◌}
use freenet_git.Repo.State.{
  RepoParams, SignedField, RefEntry, ExtensionEntry, ObjectBundleRecord, RepoState, ValidateError,
}
use freenet_git.Repo.Validate.{validate_state}

-- The higher sequence number wins, and on a tie the lower signature.
unfoldable pub pick_higher_seq : ℕ → Bytes → ℕ → Bytes → Bool
pick_higher_seq a_seq a_sig b_seq b_sig = elim (compare a_seq b_seq) [
  | gt ↦ true
  | lt ↦ false
  | eq ↦ elim (cmp a_sig b_sig) [ gt ↦ false | _ ↦ true ]
]

unfoldable pub pick_signed_field :
    {T : Type 0} → Option (SignedField T) → Option (SignedField T) → Option (SignedField T)
pick_signed_field none x = x
pick_signed_field (some x) none = some x
pick_signed_field (some x) (some y) =
    some (if pick_higher_seq x.update_seq x.signature y.update_seq y.signature then x else y)

unfoldable pub pick_ref_entry : RefEntry → RefEntry → RefEntry
pick_ref_entry a b =
    if pick_higher_seq a.update_seq a.signature b.update_seq b.signature then a else b

unfoldable pub pick_extension_entry : ExtensionEntry → ExtensionEntry → ExtensionEntry
pick_extension_entry a b =
    if pick_higher_seq a.update_seq a.signature b.update_seq b.signature then a else b

-- The loops over `incoming.refs` and `incoming.extensions`, which differ in `pick` alone: the entry is
-- taken out of `out`, and what the pick leaves is put back.
unfoldable pub merge_entries {ℓ} : {V : Type ℓ} → (V → V → V) → BTreeMap V → BTreeMap V → BTreeMap V
merge_entries {V} pick out [] = out
merge_entries {V} pick out ((k, v) ∷ incoming) =
    let picked : V = elim (get k out) [ none ↦ v | some existing ↦ pick existing v ] in
    merge_entries pick (insert k picked (remove k out)) incoming

-- `out.object_index.entry(*k).or_insert_with(|| v.clone())`, over the incoming bundles.
unfoldable pub add_missing {ℓ} : {V : Type ℓ} → BTreeMap V → BTreeMap V → BTreeMap V
add_missing out [] = out
add_missing out ((k, v) ∷ incoming) =
    add_missing (elim (get k out) [ none ↦ insert k v out | some _ ↦ out ]) incoming

unfoldable pub merge_state : RepoState → RepoState → RepoState
merge_state current incoming = record {
  owner = current.owner;
  name = pick_signed_field current.name incoming.name;
  description = pick_signed_field current.description incoming.description;
  default_branch = pick_signed_field current.default_branch incoming.default_branch;
  force_push_allowed = pick_signed_field current.force_push_allowed incoming.force_push_allowed;
  acl = pick_signed_field current.acl incoming.acl;
  upgrade = pick_signed_field current.upgrade incoming.upgrade;
  refs = merge_entries pick_ref_entry current.refs incoming.refs;
  object_index = add_missing current.object_index incoming.object_index;
  extensions = merge_entries pick_extension_entry current.extensions incoming.extensions;
}

-- `UpdateError`. `NonFastForward` is declared in the source and never returned.
pub data UpdateError : Type 0 where
  invalid : ValidateError → UpdateError
  non_fast_forward : UpdateError

unfoldable pub update_state :
    Crypto → RepoParams → RepoState → RepoState → Result UpdateError RepoState
update_state c params current delta =
    let merged = merge_state current delta in
    map_err invalid (validate_state c params merged) >>= λ _. ok merged
