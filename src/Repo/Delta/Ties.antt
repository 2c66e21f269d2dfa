-- ===== src/Repo/Delta/Ties.antt =====
-- What a delta leaves out: all of a state that the peer has, and an entry that ties with the peer's.
use freenet_git.Prelude.{ℕ, ◌≤◌, ◌≡◌, refl, Option, none, some, [], Bytes, bytes, arith}
use freenet_git.Prelude.{true, false}
use freenet_git.BTreeMap.{BTreeMap, get, keys}
use freenet_git.BTreeMap.Laws.{IsSorted, get_nil, sorted_ext}
use mathlib.Core.Option
use freenet_git.Repo.State.{SignedField, RefEntry, RepoState, default_state}
use freenet_git.Repo.Merge.{pick_ref_entry, merge_state}
use freenet_git.Repo.Merge.Lookup.{get-merge_entries}
use freenet_git.Repo.State.{IsOrdered}
use freenet_git.Repo.Delta.{
  peer_needs, gtb, delta_field, delta_entries, delta_bundles, summarize_state, get_state_delta,
}
use freenet_git.Repo.Delta.Lookup.{
  needed, unknown, get-note_seqs, get-delta_entries, delta_entries-IsSorted, get-delta_bundles,
  delta_bundles-IsSorted, contains-keys,
}
use freenet_git.Repo.Delta.Sync.{
  name_seq, description_seq, default_branch_seq, force_push_allowed_seq, acl_seq, upgrade_seq,
}

field_known :
    {T : Type 0} (name : Bytes) (x : Option (SignedField T)) (seqs : BTreeMap ℕ)
    → get name seqs ≡ Option.map (λ f. f.update_seq) x
    → delta_field name x seqs ≡ none
unfolding delta_field gtb
field_known name none seqs e = refl
field_known name (some a) seqs e = ground arith

needed_known : {V : Type 0} (seq : V → ℕ) (x : Option V) → needed seq x (Option.map seq x) ≡ none
unfolding peer_needs
needed_known seq none = refl
needed_known seq (some a) = ground arith

unknown_known :
    {V : Type 0} (x : Option V) → unknown (elim x [ none ↦ false | some _ ↦ true ]) x ≡ none
unknown_known none = refl
unknown_known (some a) = refl

entries_known :
    {V : Type 0} (seq : V → ℕ) (m : BTreeMap V) (seqs : BTreeMap ℕ)
    → IsSorted m
    → ((k : Bytes) → get k seqs ≡ Option.map seq (get k m))
    → delta_entries seq m seqs [] ≡ []
entries_known {V} seq m seqs s e =
    sorted_ext (delta_entries seq m seqs []) [] (delta_entries-IsSorted seq m seqs [] tt) tt (λ j.
      cc (get-delta_entries seq j m seqs s, e j, needed_known seq (get j m), get_nil {V = V} j))

bundles_known : {V : Type 0} (m : BTreeMap V) → IsSorted m → delta_bundles m (keys m) [] ≡ []
bundles_known {V} m s =
    sorted_ext (delta_bundles m (keys m) []) [] (delta_bundles-IsSorted m (keys m) [] tt) tt (λ j.
      cc (
        get-delta_bundles j m (keys m) s,
        contains-keys j m,
        unknown_known (get j m),
        get_nil {V = V} j,
      ))

-- A peer that has the whole of a state in key order is sent nothing: every part of its delta
-- is empty.
get_state_delta_caught_up :
    (s : RepoState) → IsOrdered s → get_state_delta s (summarize_state s) ≡ default_state
unfolding get_state_delta
get_state_delta_caught_up s o = λ i. record {
  owner = default_state.owner;
  name = field_known (bytes "name") s.name _ (name_seq s) i;
  description = field_known (bytes "description") s.description _ (description_seq s) i;
  default_branch = field_known (bytes "default_branch") s.default_branch _ (default_branch_seq s) i;
  force_push_allowed =
      field_known (bytes "force_push_allowed") s.force_push_allowed _ (force_push_allowed_seq s) i;
  acl = field_known (bytes "acl") s.acl _ (acl_seq s) i;
  upgrade = field_known (bytes "upgrade") s.upgrade _ (upgrade_seq s) i;
  refs = refs i;
  object_index = bundles i;
  extensions = extensions i;
}
  where
    refs : delta_entries (λ e. e.update_seq) s.refs (summarize_state s).ref_seqs [] ≡ []
    refs =
        unfold summarize_state in
        entries_known (λ e. e.update_seq) s.refs _ o.refs
          (λ k. get-note_seqs (λ e. e.update_seq) k s.refs o.refs)

    bundles : delta_bundles s.object_index (summarize_state s).bundle_ids [] ≡ []
    bundles = unfold summarize_state in bundles_known s.object_index o.object_index

    extensions :
        delta_entries (λ e. e.update_seq) s.extensions (summarize_state s).extension_seqs [] ≡ []
    extensions =
        unfold summarize_state in
        entries_known (λ e. e.update_seq) s.extensions _ o.extensions
          (λ k. get-note_seqs (λ e. e.update_seq) k s.extensions o.extensions)

-- A ref that the peer holds at the same number or a higher one is not sent.
ref_not_sent :
    (a b : RepoState) (k : Bytes) (x y : RefEntry)
    → IsOrdered a
    → IsOrdered b
    → get k a.refs ≡ some x
    → get k b.refs ≡ some y
    → y.update_seq ≤ x.update_seq
    → get k (merge_state a (get_state_delta b (summarize_state a))).refs ≡ some x
unfolding merge_state get_state_delta summarize_state peer_needs
ref_not_sent a b k x y oa ob ex ey le =
    let seqs = (summarize_state a).ref_seqs in
    let d = delta_entries (λ e. e.update_seq) b.refs seqs [] in
    ground (
      arith,
      get-merge_entries pick_ref_entry k a.refs d
          (delta_entries-IsSorted (λ e. e.update_seq) b.refs seqs [] tt),
      get-delta_entries (λ e. e.update_seq) k b.refs seqs ob.refs,
      get-note_seqs (λ e. e.update_seq) k a.refs oa.refs,
    )

-- Two peers with states in key order whose entries for a ref tie on the sequence number each
-- keep their own entry when they exchange deltas, while a full merge leaves the pick of the
-- two.
pub tie_never_sent :
    (a b : RepoState) (k : Bytes) (x y : RefEntry)
    → IsOrdered a
    → IsOrdered b
    → get k a.refs ≡ some x
    → get k b.refs ≡ some y
    → x.update_seq ≡ y.update_seq
    → (get k (merge_state a (get_state_delta b (summarize_state a))).refs ≡ some x)
      × (get k (merge_state b (get_state_delta a (summarize_state b))).refs ≡ some y)
      × (get k (merge_state a b).refs ≡ some (pick_ref_entry x y))
unfolding merge_state
tie_never_sent a b k x y oa ob ex ey e = (
  unfold merge_state in ref_not_sent a b k x y oa ob ex ey (omega arith),
  unfold merge_state in ref_not_sent b a k y x ob oa ey ex (omega arith),
  ground (arith, get-merge_entries pick_ref_entry k a.refs b.refs ob.refs),
)
