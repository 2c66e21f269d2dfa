-- ===== src/Rescue.antt =====
-- Which bundles a rescue re-publishes, crates/freenet-git/src/main.rs.
pub mod Partition
use freenet_git.Prelude.{
  ℕ, suc, Bool, true, false, ◌||◌, Option, none, some, List, [], ◌∷◌, Bytes, bytes, if◌then◌else◌,
}
use freenet_git.BTreeMap.{BTreeMap, get, keys}
use freenet_git.BTreeMap.Order.{eqb}
use freenet_git.Repo.State.{RepoState, RefEntry, ObjectBundleRecord, ExtensionEntry}
use freenet_git.Signing.TipKeys.{bundle_tip_extension_key}

pub data DetectedMirrorMode : Type 0 where
  snapshot : DetectedMirrorMode
  history : DetectedMirrorMode

abbrev pub mirror_mode_extension_key : Bytes
mirror_mode_extension_key = bytes "mirror-mode"

abbrev pub mirror_mode_value_snapshot : Bytes
mirror_mode_value_snapshot = bytes "snapshot"

abbrev pub mirror_mode_value_history : Bytes
mirror_mode_value_history = bytes "history"

unfoldable pub detect_mirror_mode : RepoState → Option DetectedMirrorMode
detect_mirror_mode s = elim (get mirror_mode_extension_key s.extensions) [
  | none ↦ none
  | some ext ↦
      if eqb ext.value mirror_mode_value_snapshot
      then some snapshot
      else if eqb ext.value mirror_mode_value_history
      then some history
      else none
]

-- `contains` of the set of the refs' targets.
unfoldable pub is_target : Bytes → BTreeMap RefEntry → Bool
is_target v [] = false
is_target v ((name, entry) ∷ refs) = eqb entry.target v || is_target v refs

-- The test of `reachable_bundle_ids`.
unfoldable pub is_reachable : RepoState → Bytes → Bool
is_reachable s id = elim (get (bundle_tip_extension_key id) s.extensions) [
  | none ↦ false
  | some ext ↦ is_target ext.value s.refs
]

unfoldable pub filter_ids : (Bytes → Bool) → List Bytes → List Bytes
filter_ids p [] = []
filter_ids p (x ∷ xs) = if p x then x ∷ filter_ids p xs else filter_ids p xs

unfoldable pub reachable_bundle_ids : RepoState → List Bytes
reachable_bundle_ids s = filter_ids (is_reachable s) (keys s.object_index)

-- `contains` of the set of ids.
unfoldable pub contains_id : Bytes → List Bytes → Bool
contains_id id [] = false
contains_id id (x ∷ xs) = eqb id x || contains_id id xs

-- The loop over the index: what is kept, and how many are not.
unfoldable pub partition_loop :
    List Bytes → BTreeMap ObjectBundleRecord → BTreeMap ObjectBundleRecord × ℕ
partition_loop reachable [] = ([], 0)
partition_loop reachable ((id, r) ∷ index) =
    let rest = partition_loop reachable index in
    if contains_id id reachable then ((id, r) ∷ rest.0, rest.1) else (rest.0, suc rest.1)

unfoldable pub partition_bundles_for_rescue : RepoState → Bool → BTreeMap ObjectBundleRecord × ℕ
partition_bundles_for_rescue s false = (s.object_index, 0)
partition_bundles_for_rescue s true = partition_loop (reachable_bundle_ids s) s.object_index
