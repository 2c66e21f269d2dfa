-- ===== src/Repo/Delta/Lookup.antt =====
-- What a summary and a delta hold at each key.
use freenet_git.Prelude.{ℕ, ◌≡◌, Option, none, some, List, [], ◌∷◌, Bytes}
use freenet_git.Prelude.{Bool, true, false, not, if◌then◌else◌, arith}
use freenet_git.BTreeMap.{BTreeMap, get, insert, keys}
use freenet_git.BTreeMap.Order.{eqb→eq}
use freenet_git.BTreeMap.Laws.{IsSorted, get_nil, get-cons, get-insert, get-Above, insert-IsSorted}
use mathlib.Core.Option
use freenet_git.Repo.Delta.{note_seqs, peer_needs, delta_entries, contains, delta_bundles}

-- What a map holds at a key, or else a second one.
abbrev or_else : {A : Type 0} → Option A → Option A → Option A
or_else none y = y
or_else (some a) y = some a

module _ {V : Type 0} where
  get-note_seqs_acc :
      (seq : V → ℕ) (j : Bytes) (entries : BTreeMap V) (m : BTreeMap ℕ)
      → IsSorted entries
      → get j (note_seqs seq entries m) ≡ or_else (Option.map seq (get j entries)) (get j m)
  unfolding note_seqs
  get-note_seqs_acc seq j [] m s = rw (get_nil {V = V} j)
  get-note_seqs_acc seq j ((k, v) ∷ entries) m s = ground (
    arith,
    get-note_seqs_acc seq j entries (insert k (seq v) m) s.1,
    get-insert j k (seq v) m,
    get-cons j k v entries,
    eqb→eq j k,
    get-Above k entries s.0,
  )

  pub get-note_seqs :
      (seq : V → ℕ) (j : Bytes) (entries : BTreeMap V)
      → IsSorted entries
      → get j (note_seqs seq entries []) ≡ Option.map seq (get j entries)
  get-note_seqs seq j entries s =
      ground (arith, get-note_seqs_acc seq j entries [] s, get_nil {V = ℕ} j)

  -- The part of an entry that a peer is sent.
  abbrev pub needed : (V → ℕ) → Option V → Option ℕ → Option V
  needed seq none y = none
  needed seq (some v) y = if peer_needs (seq v) y then some v else none

  get-delta_entries_acc :
      (seq : V → ℕ) (j : Bytes) (entries : BTreeMap V) (seqs : BTreeMap ℕ) (d : BTreeMap V)
      → IsSorted entries
      → get j (delta_entries seq entries seqs d)
        ≡ or_else (needed seq (get j entries) (get j seqs)) (get j d)
  unfolding delta_entries
  get-delta_entries_acc seq j [] seqs d s = rw (get_nil {V = V} j)
  get-delta_entries_acc seq j ((k, v) ∷ entries) seqs d s =
      let d' : BTreeMap V = if peer_needs (seq v) (get k seqs) then insert k v d else d in
      ground (
        arith,
        get-delta_entries_acc seq j entries seqs d' s.1,
        get-insert j k v d,
        get-cons j k v entries,
        eqb→eq j k,
        get-Above k entries s.0,
      )

  pub get-delta_entries :
      (seq : V → ℕ) (j : Bytes) (entries : BTreeMap V) (seqs : BTreeMap ℕ)
      → IsSorted entries
      → get j (delta_entries seq entries seqs []) ≡ needed seq (get j entries) (get j seqs)
  get-delta_entries seq j entries seqs s =
      ground (arith, get-delta_entries_acc seq j entries seqs [] s, get_nil {V = V} j)

  pub delta_entries-IsSorted :
      (seq : V → ℕ) (entries : BTreeMap V) (seqs : BTreeMap ℕ) (d : BTreeMap V)
      → IsSorted d
      → IsSorted (delta_entries seq entries seqs d)
  unfolding delta_entries
  delta_entries-IsSorted seq [] seqs d s = s
  delta_entries-IsSorted seq ((k, v) ∷ entries) seqs d s =
      let d' : BTreeMap V = if peer_needs (seq v) (get k seqs) then insert k v d else d in
      delta_entries-IsSorted seq entries seqs d' (ground (arith, insert-IsSorted k v d))

  -- The part of a bundle entry that a peer is sent.
  abbrev pub unknown : Bool → Option V → Option V
  unknown true x = none
  unknown false x = x

  get-delta_bundles_acc :
      (j : Bytes) (entries : BTreeMap V) (known : List Bytes) (d : BTreeMap V)
      → IsSorted entries
      → get j (delta_bundles entries known d)
        ≡ or_else (unknown (contains j known) (get j entries)) (get j d)
  unfolding delta_bundles
  get-delta_bundles_acc j [] known d s = ground (arith, get_nil {V = V} j)
  get-delta_bundles_acc j ((k, v) ∷ entries) known d s =
      let d' : BTreeMap V = if not (contains k known) then insert k v d else d in
      ground (
        arith,
        get-delta_bundles_acc j entries known d' s.1,
        get-insert j k v d,
        get-cons j k v entries,
        eqb→eq j k,
        get-Above k entries s.0,
      )

  pub get-delta_bundles :
      (j : Bytes) (entries : BTreeMap V) (known : List Bytes)
      → IsSorted entries
      → get j (delta_bundles entries known []) ≡ unknown (contains j known) (get j entries)
  get-delta_bundles j entries known s =
      ground (arith, get-delta_bundles_acc j entries known [] s, get_nil {V = V} j)

  pub delta_bundles-IsSorted :
      (entries : BTreeMap V) (known : List Bytes) (d : BTreeMap V)
      → IsSorted d
      → IsSorted (delta_bundles entries known d)
  unfolding delta_bundles
  delta_bundles-IsSorted [] known d s = s
  delta_bundles-IsSorted ((k, v) ∷ entries) known d s =
      let d' : BTreeMap V = if not (contains k known) then insert k v d else d in
      delta_bundles-IsSorted entries known d' (ground (arith, insert-IsSorted k v d))

  -- A key is among the keys exactly when the map holds it.
  pub contains-keys :
      (j : Bytes) (m : BTreeMap V)
      → contains j (keys m) ≡ (elim (get j m) [ none ↦ false | some _ ↦ true ])
  unfolding contains
  contains-keys j [] = rw (get_nil {V = V} j)
  contains-keys j ((k, v) ∷ m) = ground (arith, contains-keys j m, get-cons j k v m)
