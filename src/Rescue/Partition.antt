-- ===== src/Rescue/Partition.antt =====
-- The bundles that a rescue keeps, crates/freenet-git/src/main.rs.
use freenet_git.Prelude.{
  ℕ, suc, ◌≡◌, ◌↔◌, refl, ap, ◌⊎◌, inl, inr, Bool, true, false, Option, none, some, List, [], ◌∷◌,
  Bytes, arith, Bool-cases,
}
use freenet_git.BTreeMap.{BTreeMap, get, keys}
use freenet_git.BTreeMap.Order.{eqb, eqb→eq, eqb_refl}
use freenet_git.Repo.State.{RepoState, RefEntry, ObjectBundleRecord, ExtensionEntry}
use freenet_git.Signing.TipKeys.{bundle_tip_extension_key}
use freenet_git.Rescue.{
  is_target, is_reachable, filter_ids, reachable_bundle_ids, contains_id, partition_loop,
  partition_bundles_for_rescue,
}

-- Some ref points at this commit.
abbrev pub Targets : Bytes → BTreeMap RefEntry → Type 0
Targets v [] = ⊥
Targets v ((name, entry) ∷ refs) = (entry.target ≡ v) ⊎ Targets v refs

-- The bundle's tip extension names a commit that some ref points at.
abbrev pub IsCurrent : RepoState → Bytes → Type 0
IsCurrent s id =
    (ext : ExtensionEntry) × (get (bundle_tip_extension_key id) s.extensions ≡ some ext)
    × Targets ext.value s.refs

-- A selection of a list: each entry is in the first part exactly if it satisfies the predicate, and
-- the second part counts the others.
pub data Selected (P : Bytes → Type 0)
    : BTreeMap ObjectBundleRecord → BTreeMap ObjectBundleRecord → ℕ → Type 0 where
  nil : Selected P [] [] 0
  keep :
      (id : Bytes) (r : ObjectBundleRecord) (index kept : BTreeMap ObjectBundleRecord) (n : ℕ)
      → P id
      → Selected P index kept n
      → Selected P ((id, r) ∷ index) ((id, r) ∷ kept) n
  skip :
      (id : Bytes) (r : ObjectBundleRecord) (index kept : BTreeMap ObjectBundleRecord) (n : ℕ)
      → (P id → ⊥)
      → Selected P index kept n
      → Selected P ((id, r) ∷ index) kept (suc n)

is_target_lem : (v : Bytes) (refs : BTreeMap RefEntry) → (is_target v refs ≡ true) ↔ Targets v refs
unfolding is_target
is_target_lem v [] = (λ h. absurd (ground arith), λ h. elim h [ ])
is_target_lem v ((name, entry) ∷ refs) =
    let (to, from) = is_target_lem v refs in
    (
      λ h. elim (Bool-cases (eqb entry.target v)) [
        | inl e ↦ inl (eqb→eq entry.target v e)
        | inr e ↦ inr (to (ground arith))
      ],
      λ h. elim h [
        | inl e ↦ ground (arith, eqb_refl v, ap (λ x. eqb x v) e)
        | inr t ↦ ground (arith, from t)
      ],
    )

is_reachable_lem : (s : RepoState) (id : Bytes) → (is_reachable s id ≡ true) ↔ IsCurrent s id
unfolding is_reachable
is_reachable_lem s id = go (get (bundle_tip_extension_key id) s.extensions)
  where
    go :
        (o : Option ExtensionEntry)
        → ((elim o [ none ↦ false | some ext ↦ is_target ext.value s.refs ]) ≡ true)
          ↔ ((ext : ExtensionEntry) × (o ≡ some ext) × Targets ext.value s.refs)
    go none = (λ h. absurd (ground arith), λ h. absurd (ground arith))
    go (some ext) =
        let (to, from) = is_target_lem ext.value s.refs in
        (
          λ h. (ext, refl, to h),
          λ h. let (x, e, t) = h in let same : ext ≡ x = cc e in from (rw same t),
        )

-- The set of ids that satisfy a test holds an id exactly if the id satisfies it.
contains_id-filter_ids :
    (p : Bytes → Bool) (id : Bytes) (xs : List Bytes)
    → contains_id id (filter_ids p xs) ≡ true
    → p id ≡ true
unfolding contains_id filter_ids
contains_id-filter_ids p id [] h = absurd (ground arith)
contains_id-filter_ids p id (x ∷ xs) h = elim (Bool-cases (p x)) [
  | inr out ↦ contains_id-filter_ids p id xs (rw out at h)
  | inl held ↦ elim (Bool-cases (eqb id x)) [
    | inl same ↦ rw (eqb→eq id x same) held
    | inr other ↦ contains_id-filter_ids p id xs (rw other at (rw held at h))
  ]
]

filter_ids-contains_id :
    (p : Bytes → Bool) (id : Bytes) (xs : List Bytes)
    → p id ≡ true
    → contains_id id xs ≡ true
    → contains_id id (filter_ids p xs) ≡ true
unfolding contains_id filter_ids
filter_ids-contains_id p id [] h c = c
filter_ids-contains_id p id (x ∷ xs) h c = elim (Bool-cases (eqb id x)) [
  | inl same ↦ let held : p x ≡ true = rw (← eqb→eq id x same) h in rw (held, contains_id, same)
  | inr other ↦
      let rest = filter_ids-contains_id p id xs h (rw other at c) in
      elim (Bool-cases (p x)) [
        | inl held ↦ rw (held, contains_id, other) rest
        | inr out ↦ rw out rest
      ]
]

-- The test of the loop, for the entries of an index.
abbrev Decides : (Bytes → Type 0) → List Bytes → BTreeMap ObjectBundleRecord → Type 0
Decides P reachable [] = Unit
Decides P reachable ((id, r) ∷ index) =
    ((contains_id id reachable ≡ true) ↔ P id) × Decides P reachable index

partition_loop-Selected :
    (P : Bytes → Type 0) (reachable : List Bytes) (index : BTreeMap ObjectBundleRecord)
    → Decides P reachable index
    → Selected P index (partition_loop reachable index).0 (partition_loop reachable index).1
unfolding partition_loop
partition_loop-Selected P reachable [] h = nil
partition_loop-Selected P reachable ((id, r) ∷ index) h =
    let rest = partition_loop-Selected P reachable index h.1 in
    elim (Bool-cases (contains_id id reachable)) [
      | inl yes_in ↦ rw yes_in (keep id r index _ _ (h.0.0 yes_in) rest)
      | inr not_in ↦ rw not_in (skip id r index _ _ (λ p. ground (arith, h.0.1 p)) rest)
    ]

reachable-Decides :
    (s : RepoState) (done : List Bytes) (index : BTreeMap ObjectBundleRecord)
    → ((id : Bytes) → contains_id id (keys index) ≡ true → contains_id id done ≡ true)
    → Decides (IsCurrent s) (filter_ids (is_reachable s) done) index
unfolding contains_id
reachable-Decides s done [] h = tt
reachable-Decides s done ((id, r) ∷ index) h =
    let (to, from) = is_reachable_lem s id in
    let present = h id (rw (eqb_refl id)) in
    (
      (
        λ c. to (contains_id-filter_ids (is_reachable s) id done c),
        λ p. filter_ids-contains_id (is_reachable s) id done (from p) present,
      ),
      reachable-Decides s done index (λ j c. h j (ground (arith, c))),
    )

-- With the filter on, a rescue keeps exactly the bundles whose tip extension names a commit that
-- some ref points at, in the order of the index and with their records, and counts all the others
-- as skipped; with the filter off it keeps the whole index and skips none.
pub partition_bundles_for_rescue-Selected :
    (s : RepoState)
    → Selected
        (IsCurrent s)
        s.object_index
        (partition_bundles_for_rescue s true).0
        (partition_bundles_for_rescue s true).1
      × (partition_bundles_for_rescue s false ≡ (s.object_index, 0))
unfolding partition_bundles_for_rescue reachable_bundle_ids
partition_bundles_for_rescue-Selected s = (
  partition_loop-Selected (IsCurrent s) _ s.object_index
      (reachable-Decides s (keys s.object_index) s.object_index (λ id c. c)),
  refl,
)
