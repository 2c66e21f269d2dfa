-- ===== src/Repo/Delta/Sync.antt =====
-- Synchronising by summary and delta gives what merging the whole state would give.
use freenet_git.Prelude.{ℕ, ◌≡◌, refl, sym, ◌∙◌, Option, none, some, [], Bytes, bytes}
use freenet_git.Prelude.{true, false, arith}
use freenet_git.BTreeMap.{BTreeMap, get, keys}
use freenet_git.BTreeMap.Order.{cmp, eqb, eqb_refl}
use freenet_git.BTreeMap.Laws.{IsSorted, get_nil, get-insert, sorted_ext}
use mathlib.Core.Option
use freenet_git.Repo.State.{SignedField, RepoState}
use freenet_git.Repo.Merge.{
  pick_higher_seq, pick_signed_field, pick_ref_entry, pick_extension_entry, merge_entries,
  add_missing, merge_state,
}
use freenet_git.Repo.Merge.Pick.{join, choose}
use freenet_git.Repo.Merge.Lookup.{
  get-merge_entries, get-add_missing, merge_entries-IsSorted, add_missing-IsSorted,
}
use freenet_git.Repo.State.{IsOrdered}
use freenet_git.Repo.Merge.Laws.{Coherent, merge_state_comm}
use freenet_git.Repo.Delta.{
  note_field, peer_needs, gtb, delta_field, delta_entries, delta_bundles, summarize_state,
  get_state_delta,
}
use freenet_git.Repo.Delta.Lookup.{
  needed, unknown, get-note_seqs, get-delta_entries, delta_entries-IsSorted, get-delta_bundles,
  delta_bundles-IsSorted, contains-keys,
}

-- Two entries of one place with one sequence number are one entry.
abbrev pub OneSeq : {V : Type 0} → (V → ℕ) → Option V → Option V → Type 0
OneSeq seq none y = Unit
OneSeq seq (some a) none = Unit
OneSeq seq (some a) (some b) = seq a ≡ seq b → a ≡ b

abbrev pub OneFieldSeq : {T : Type 0} → Option (SignedField T) → Option (SignedField T) → Type 0
OneFieldSeq = OneSeq (λ f. f.update_seq)

-- The writer never used one sequence number of a place for two entries.
pub record SingleWriter (a b : RepoState) : Type 0 where
  pub name : OneFieldSeq a.name b.name
  pub description : OneFieldSeq a.description b.description
  pub default_branch : OneFieldSeq a.default_branch b.default_branch
  pub force_push_allowed : OneFieldSeq a.force_push_allowed b.force_push_allowed
  pub acl : OneFieldSeq a.acl b.acl
  pub upgrade : OneFieldSeq a.upgrade b.upgrade
  pub refs : (k : Bytes) → OneSeq (λ e. e.update_seq) (get k a.refs) (get k b.refs)
  pub extensions :
      (k : Bytes) → OneSeq (λ e. e.update_seq) (get k a.extensions) (get k b.extensions)

module _ {V : Type 0} (seq : V → ℕ) (sig : V → Bytes) where
  -- Leaving out what the peer has at the same number or a higher one changes no join.
  join-needed :
      (x y : Option V)
      → OneSeq seq x y
      → join (choose seq sig) x (needed seq y (Option.map seq x)) ≡ join (choose seq sig) x y
  unfolding peer_needs pick_higher_seq
  join-needed none none h = refl
  join-needed none (some b) h = refl
  join-needed (some a) none h = refl
  join-needed (some a) (some b) h = ground (arith, h)

join-unknown :
    {V : Type 0} (x y : Option V)
    → join (λ a b. a) x (unknown (elim x [ none ↦ false | some _ ↦ true ]) y) ≡ join (λ a b. a) x y
join-unknown none y = refl
join-unknown (some a) none = refl
join-unknown (some a) (some b) = refl

-- What the summary says of each singleton field.
get-note_field_ne :
    {T : Type 0} (j k : Bytes) (f : Option (SignedField T)) (m : BTreeMap ℕ)
    → eqb j k ≡ false
    → get j (note_field k f m) ≡ get j m
unfolding note_field
get-note_field_ne j k none m h = refl
get-note_field_ne j k (some f) m h = rw (get-insert, h)

get-note_field_self :
    {T : Type 0} (k : Bytes) (f : Option (SignedField T)) (m : BTreeMap ℕ)
    → get k m ≡ none
    → get k (note_field k f m) ≡ Option.map (λ g. g.update_seq) f
unfolding note_field
get-note_field_self k none m h = h
get-note_field_self k (some f) m h = rw (get-insert, eqb_refl)

ruleset field_laws = (get-note_field_ne, get_nil, get-note_field_self)

module _ (s : RepoState) where
  abbrev pub seqs : Bytes → Option ℕ
  seqs k = get k (summarize_state s).field_seqs

  pub name_seq : seqs (bytes "name") ≡ Option.map (λ f. f.update_seq) s.name
  unfolding summarize_state eqb cmp
  name_seq = simp field_laws

  pub description_seq : seqs (bytes "description") ≡ Option.map (λ f. f.update_seq) s.description
  unfolding summarize_state eqb cmp
  description_seq = simp field_laws

  pub default_branch_seq :
      seqs (bytes "default_branch") ≡ Option.map (λ f. f.update_seq) s.default_branch
  unfolding summarize_state eqb cmp
  default_branch_seq = simp field_laws

  pub force_push_allowed_seq :
      seqs (bytes "force_push_allowed") ≡ Option.map (λ f. f.update_seq) s.force_push_allowed
  unfolding summarize_state eqb cmp
  force_push_allowed_seq = simp field_laws

  pub acl_seq : seqs (bytes "acl") ≡ Option.map (λ f. f.update_seq) s.acl
  unfolding summarize_state eqb cmp
  acl_seq = simp field_laws

  pub upgrade_seq : seqs (bytes "upgrade") ≡ Option.map (λ f. f.update_seq) s.upgrade
  unfolding summarize_state eqb cmp
  upgrade_seq = simp field_laws

field_sync :
    {T : Type 0} (name : Bytes) (x y : Option (SignedField T)) (seqs : BTreeMap ℕ)
    → get name seqs ≡ Option.map (λ f. f.update_seq) x
    → OneFieldSeq x y
    → pick_signed_field x (delta_field name y seqs) ≡ pick_signed_field x y
unfolding pick_signed_field delta_field gtb pick_higher_seq
field_sync name none none seqs e h = refl
field_sync name none (some b) seqs e h = ground arith
field_sync name (some a) none seqs e h = refl
field_sync name (some a) (some b) seqs e h = ground (arith, h)

entries_sync :
    {V : Type 0} (seq : V → ℕ) (sig : V → Bytes) (a b : BTreeMap V) (seqs : BTreeMap ℕ)
    → IsSorted a
    → IsSorted b
    → ((k : Bytes) → get k seqs ≡ Option.map seq (get k a))
    → ((k : Bytes) → OneSeq seq (get k a) (get k b))
    → merge_entries (choose seq sig) a (delta_entries seq b seqs [])
      ≡ merge_entries (choose seq sig) a b
entries_sync seq sig a b seqs sa sb es h =
    let d = delta_entries seq b seqs [] in
    sorted_ext _ _ (merge_entries-IsSorted (choose seq sig) a d sa)
      (merge_entries-IsSorted (choose seq sig) a b sa)
      (λ j. cc (
        get-merge_entries (choose seq sig) j a d (delta_entries-IsSorted seq b seqs [] tt),
        get-merge_entries (choose seq sig) j a b sb,
        get-delta_entries seq j b seqs sb,
        es j,
        join-needed seq sig (get j a) (get j b) (h j),
      ))

bundles_sync :
    {V : Type 0} (a b : BTreeMap V)
    → IsSorted a
    → IsSorted b
    → add_missing a (delta_bundles b (keys a) []) ≡ add_missing a b
bundles_sync a b sa sb =
    let d = delta_bundles b (keys a) [] in
    sorted_ext _ _ (add_missing-IsSorted a d sa) (add_missing-IsSorted a b sa) (λ j. cc (
      get-add_missing j a d (delta_bundles-IsSorted b (keys a) [] tt),
      get-add_missing j a b sb,
      get-delta_bundles j b (keys a) sb,
      contains-keys j a,
      join-unknown (get j a) (get j b),
    ))

refs_sync :
    (peer s : RepoState)
    → IsOrdered peer
    → IsOrdered s
    → SingleWriter peer s
    → merge_entries pick_ref_entry peer.refs
        (delta_entries (λ e. e.update_seq) s.refs (summarize_state peer).ref_seqs [])
      ≡ merge_entries pick_ref_entry peer.refs s.refs
unfolding pick_ref_entry summarize_state
refs_sync peer s op os h =
    entries_sync (λ e. e.update_seq) (λ e. e.signature) peer.refs s.refs _ op.refs os.refs
      (λ k. get-note_seqs (λ e. e.update_seq) k peer.refs op.refs) h.refs

extensions_sync :
    (peer s : RepoState)
    → IsOrdered peer
    → IsOrdered s
    → SingleWriter peer s
    → merge_entries pick_extension_entry peer.extensions
        (delta_entries (λ e. e.update_seq) s.extensions (summarize_state peer).extension_seqs [])
      ≡ merge_entries pick_extension_entry peer.extensions s.extensions
unfolding pick_extension_entry summarize_state
extensions_sync peer s op os h =
    entries_sync (λ e. e.update_seq) (λ e. e.signature) peer.extensions s.extensions _ op.extensions
      os.extensions (λ k. get-note_seqs (λ e. e.update_seq) k peer.extensions op.extensions)
      h.extensions

-- For states in key order, of which no place has two entries of one sequence number, merging
-- the delta made for a peer's summary gives the peer what merging the whole state would.
pub merge_state-get_state_delta :
    (peer s : RepoState)
    → IsOrdered peer
    → IsOrdered s
    → SingleWriter peer s
    → merge_state peer (get_state_delta s (summarize_state peer)) ≡ merge_state peer s
unfolding merge_state get_state_delta
merge_state-get_state_delta peer s op os h = λ i. record {
  owner = peer.owner;
  name = field_sync (bytes "name") peer.name s.name _ (name_seq peer) h.name i;
  description =
      field_sync (bytes "description") peer.description s.description _ (description_seq peer)
        h.description i;
  default_branch =
      field_sync (bytes "default_branch") peer.default_branch s.default_branch _
        (default_branch_seq peer) h.default_branch i;
  force_push_allowed =
      field_sync (bytes "force_push_allowed") peer.force_push_allowed s.force_push_allowed _
        (force_push_allowed_seq peer) h.force_push_allowed i;
  acl = field_sync (bytes "acl") peer.acl s.acl _ (acl_seq peer) h.acl i;
  upgrade = field_sync (bytes "upgrade") peer.upgrade s.upgrade _ (upgrade_seq peer) h.upgrade i;
  refs = refs_sync peer s op os h i;
  object_index = objects i;
  extensions = extensions_sync peer s op os h i;
}
  where
    objects :
        add_missing peer.object_index
          (delta_bundles s.object_index (summarize_state peer).bundle_ids [])
        ≡ add_missing peer.object_index s.object_index
    objects =
        unfold summarize_state in
        bundles_sync peer.object_index s.object_index op.object_index os.object_index

-- For two peers with states of one owner, in key order, in which no place has two entries of
-- one sequence number and no bundle two records: after each has merged the delta that the
-- other made for its summary, both hold the same state.
pub exchange_converges :
    (a b : RepoState)
    → IsOrdered a
    → IsOrdered b
    → Coherent a b
    → SingleWriter a b
    → SingleWriter b a
    → merge_state a (get_state_delta b (summarize_state a))
      ≡ merge_state b (get_state_delta a (summarize_state b))
exchange_converges a b oa ob h ab ba =
    merge_state-get_state_delta a b oa ob ab
    ∙ merge_state_comm a b h oa ob
    ∙ sym (merge_state-get_state_delta b a ob oa ba)
