-- ===== src/Repo/Merge/Lookup.antt =====
-- What the merge loops leave at each key: the join of the two maps' entries there.
use freenet_git.Prelude.{◌≡◌, none, some, [], ◌∷◌, Bytes, arith}
use freenet_git.Prelude.{if◌then◌else◌, Bool-cases, Option-cases, inl, inr}
use freenet_git.BTreeMap.{BTreeMap, get, insert, remove}
use freenet_git.BTreeMap.Order.{eqb, eqb→eq}
use freenet_git.BTreeMap.Laws.{
  IsSorted, get_nil, get-cons, get-insert, get-remove_ne, get-Above, insert-IsSorted,
  remove-IsSorted,
}
use freenet_git.Repo.Merge.{merge_entries, add_missing}
use freenet_git.Repo.Merge.Pick.{join}

module _ {V : Type 0} where
  -- One round of either loop at the key `j`.
  get_put_back :
      (j k : Bytes) (v : V) (m : BTreeMap V)
      → get j (insert k v (remove k m)) ≡ (if eqb j k then some v else get j m)
  get_put_back j k v m = elim (Bool-cases (eqb j k)) [
    | inl e ↦ rw (get-insert, e)
    | inr e ↦ rw (get-insert, e) (get-remove_ne j k m e)
  ]

  pub get-merge_entries :
      (pick : V → V → V) (j : Bytes) (out incoming : BTreeMap V)
      → IsSorted incoming
      → get j (merge_entries pick out incoming) ≡ join pick (get j out) (get j incoming)
  unfolding merge_entries
  get-merge_entries pick j out [] s = ground (arith, get_nil {V = V} j)
  get-merge_entries pick j out ((k, v) ∷ incoming) s =
      let picked : V = elim (get k out) [ none ↦ v | some existing ↦ pick existing v ] in
      let rec = get-merge_entries pick j (insert k picked (remove k out)) incoming s.1 in
      ground (
        arith,
        rec,
        get_put_back j k picked out,
        get-cons j k v incoming,
        eqb→eq j k,
        get-Above k incoming s.0,
      )

  pub get-add_missing :
      (j : Bytes) (out incoming : BTreeMap V)
      → IsSorted incoming
      → get j (add_missing out incoming) ≡ join (λ a b. a) (get j out) (get j incoming)
  unfolding add_missing
  get-add_missing j out [] s = ground (arith, get_nil {V = V} j)
  get-add_missing j out ((k, v) ∷ incoming) s = elim (Option-cases (get k out)) [
    | inl e ↦ ground (
      arith,
      get-add_missing j (insert k v out) incoming s.1,
      get-insert j k v out,
      get-cons j k v incoming,
      eqb→eq j k,
      get-Above k incoming s.0,
    )
    | inr (w, e) ↦ ground (
      arith,
      get-add_missing j out incoming s.1,
      get-cons j k v incoming,
      eqb→eq j k,
      get-Above k incoming s.0,
    )
  ]

  pub merge_entries-IsSorted :
      (pick : V → V → V) (out incoming : BTreeMap V)
      → IsSorted out
      → IsSorted (merge_entries pick out incoming)
  unfolding merge_entries
  merge_entries-IsSorted pick out [] s = s
  merge_entries-IsSorted pick out ((k, v) ∷ incoming) s =
      let picked : V = elim (get k out) [ none ↦ v | some existing ↦ pick existing v ] in
      merge_entries-IsSorted pick (insert k picked (remove k out)) incoming
        (insert-IsSorted k picked (remove k out) (remove-IsSorted k out s))

  pub add_missing-IsSorted :
      (out incoming : BTreeMap V) → IsSorted out → IsSorted (add_missing out incoming)
  unfolding add_missing
  add_missing-IsSorted out [] s = s
  add_missing-IsSorted out ((k, v) ∷ incoming) s = elim (Option-cases (get k out)) [
    | inl e ↦ rw e (add_missing-IsSorted (insert k v out) incoming (insert-IsSorted k v out s))
    | inr (w, e) ↦ rw e (add_missing-IsSorted out incoming s)
  ]
