-- ===== src/Repo/Delta.antt =====
-- `summarize_state` and `get_state_delta` of crates/types/src/lib.rs: what a peer says it has, and what
-- it is sent.
pub mod Lookup
pub mod Sync
pub mod Ties
use freenet_git.Prelude.{
  ℕ, Option, none, some, List, [], ◌∷◌, ◌++◌, Bytes, bytes, Bool, true, false, not,
}
use freenet_git.Prelude.{◌||◌, ltb, if◌then◌else◌}
use freenet_git.BTreeMap.{BTreeMap, get, insert, keys}
use freenet_git.BTreeMap.Order.{eqb}
use mathlib.Core.Option
use freenet_git.Repo.State.{SignedField, RepoState, default_state}

pub record RepoSummary : Type 0 where
  pub field_seqs : BTreeMap ℕ
  pub ref_seqs : BTreeMap ℕ
  pub bundle_ids : List Bytes
  pub extension_seqs : BTreeMap ℕ

-- `RepoSummary::default()`.
abbrev pub default_summary : RepoSummary
default_summary = record { field_seqs = []; ref_seqs = []; bundle_ids = []; extension_seqs = [] }

-- `if let Some(f) = &state.field { s.field_seqs.insert(name, f.update_seq) }`.
unfoldable pub note_field : {T : Type 0} → Bytes → Option (SignedField T) → BTreeMap ℕ → BTreeMap ℕ
note_field name none m = m
note_field name (some f) m = insert name f.update_seq m

-- `for (k, v) in map { seqs.insert(k.clone(), v.update_seq) }`.
unfoldable pub note_seqs : {V : Type 0} → (V → ℕ) → BTreeMap V → BTreeMap ℕ → BTreeMap ℕ
note_seqs seq [] m = m
note_seqs seq ((k, v) ∷ entries) m = note_seqs seq entries (insert k (seq v) m)

unfoldable pub summarize_state : RepoState → RepoSummary
summarize_state state = record {
  field_seqs = note_field (bytes "upgrade") state.upgrade (
      note_field (bytes "acl") state.acl (
        note_field (bytes "force_push_allowed") state.force_push_allowed (
          note_field (bytes "default_branch") state.default_branch (
            note_field (bytes "description") state.description
              (note_field (bytes "name") state.name [])))));
  ref_seqs = note_seqs (λ e. e.update_seq) state.refs [];
  bundle_ids = keys state.object_index;
  extension_seqs = note_seqs (λ e. e.update_seq) state.extensions [];
}

-- `>` on `Option<u64>`, where `None` is least.
unfoldable pub gtb : Option ℕ → Option ℕ → Bool
gtb none y = false
gtb (some a) none = true
gtb (some a) (some b) = ltb b a

-- A singleton field goes into the delta if the peer's number is lower, or missing.
unfoldable pub delta_field :
    {T : Type 0} → Bytes → Option (SignedField T) → BTreeMap ℕ → Option (SignedField T)
delta_field name field seqs =
    if gtb (Option.map (λ f. f.update_seq) field) (get name seqs) then field else none

-- `match seqs.get(k) { None => true, Some(&seq) => seq < v.update_seq }`.
unfoldable pub peer_needs : ℕ → Option ℕ → Bool
peer_needs update_seq none = true
peer_needs update_seq (some seq) = ltb seq update_seq

-- The loops over the refs and the extensions; `d` is what the delta holds already.
unfoldable pub delta_entries :
    {V : Type 0} → (V → ℕ) → BTreeMap V → BTreeMap ℕ → BTreeMap V → BTreeMap V
delta_entries seq [] seqs d = d
delta_entries seq ((k, v) ∷ entries) seqs d =
    delta_entries seq entries seqs (if peer_needs (seq v) (get k seqs) then insert k v d else d)

-- `known.contains(k)`.
unfoldable pub contains : Bytes → List Bytes → Bool
contains k [] = false
contains k (j ∷ known) = eqb k j || contains k known

-- The loop over the bundles.
unfoldable pub delta_bundles : {V : Type 0} → BTreeMap V → List Bytes → BTreeMap V → BTreeMap V
delta_bundles [] known d = d
delta_bundles ((k, v) ∷ entries) known d =
    delta_bundles entries known (if not (contains k known) then insert k v d else d)

unfoldable pub get_state_delta : RepoState → RepoSummary → RepoState
get_state_delta state summary = record default_state {
  name = delta_field (bytes "name") state.name summary.field_seqs;
  description = delta_field (bytes "description") state.description summary.field_seqs;
  default_branch = delta_field (bytes "default_branch") state.default_branch summary.field_seqs;
  force_push_allowed =
      delta_field (bytes "force_push_allowed") state.force_push_allowed summary.field_seqs;
  acl = delta_field (bytes "acl") state.acl summary.field_seqs;
  upgrade = delta_field (bytes "upgrade") state.upgrade summary.field_seqs;
  refs = delta_entries (λ e. e.update_seq) state.refs summary.ref_seqs [];
  object_index = delta_bundles state.object_index summary.bundle_ids [];
  extensions = delta_entries (λ e. e.update_seq) state.extensions summary.extension_seqs [];
}
