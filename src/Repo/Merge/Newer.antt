-- ===== src/Repo/Merge/Newer.antt =====
-- A merge never goes back: each place of either state is kept, at a sequence number no lower.
use freenet_git.Prelude.{ℕ, ◌≤◌, Option, none, some, Bytes, arith}
use freenet_git.BTreeMap.{BTreeMap, get}
use freenet_git.BTreeMap.Laws.{IsSorted}
use freenet_git.Repo.State.{SignedField, RepoState}
use freenet_git.Repo.Merge.{
  merge_state, merge_entries, add_missing, pick_signed_field, pick_ref_entry, pick_extension_entry,
}
use freenet_git.Repo.Merge.Pick.{join, choose, choose-le}
use freenet_git.Repo.Merge.Lookup.{get-merge_entries, get-add_missing}
use freenet_git.Repo.Merge.Join.{pick_signed_field-join}
use freenet_git.Repo.State.{IsOrdered}

-- What `x` holds, `y` holds at a sequence number at least as high.
abbrev pub Newer : {V : Type 0} → (V → ℕ) → Option V → Option V → Type 0
Newer seq none y = Unit
Newer seq (some a) none = ⊥
Newer seq (some a) (some b) = seq a ≤ seq b

abbrev pub NewerField : {T : Type 0} → Option (SignedField T) → Option (SignedField T) → Type 0
NewerField = Newer (λ f. f.update_seq)

-- Every place of `a` is in `b`, and no field, ref or extension is older there.
pub record IsNewer (a b : RepoState) : Type 0 where
  pub name : NewerField a.name b.name
  pub description : NewerField a.description b.description
  pub default_branch : NewerField a.default_branch b.default_branch
  pub force_push_allowed : NewerField a.force_push_allowed b.force_push_allowed
  pub acl : NewerField a.acl b.acl
  pub upgrade : NewerField a.upgrade b.upgrade
  pub refs : (k : Bytes) → Newer (λ e. e.update_seq) (get k a.refs) (get k b.refs)
  -- A bundle has no sequence number: it is only kept.
  pub object_index : (k : Bytes) → Newer (λ e. 0) (get k a.object_index) (get k b.object_index)
  pub extensions : (k : Bytes) → Newer (λ e. e.update_seq) (get k a.extensions) (get k b.extensions)

module _ {V : Type 0} (seq : V → ℕ) (f : V → V → V)
    (le : (a b : V) → (seq a ≤ seq (f a b)) × (seq b ≤ seq (f a b))) where
  Newer-join : (x y : Option V) → Newer seq x (join f x y) × Newer seq y (join f x y)
  Newer-join none none = (tt, tt)
  Newer-join none (some b) = (tt, omega arith)
  Newer-join (some a) none = (omega arith, tt)
  Newer-join (some a) (some b) = le a b

  Newer-merge_entries :
      (a b : BTreeMap V) (k : Bytes)
      → IsSorted b
      → Newer seq (get k a) (get k (merge_entries f a b))
        × Newer seq (get k b) (get k (merge_entries f a b))
  Newer-merge_entries a b k s = rw (get-merge_entries f k a b s) (Newer-join (get k a) (get k b))

Newer-add_missing :
    {V : Type 0} (a b : BTreeMap V) (k : Bytes)
    → IsSorted b
    → Newer (λ e. 0) (get k a) (get k (add_missing a b))
      × Newer (λ e. 0) (get k b) (get k (add_missing a b))
Newer-add_missing a b k s =
    rw (get-add_missing k a b s)
      (Newer-join (λ e. 0) (λ x y. x) (λ x y. omega arith) (get k a) (get k b))

Newer-field :
    {T : Type 0} (x y : Option (SignedField T))
    → NewerField x (pick_signed_field x y) × NewerField y (pick_signed_field x y)
Newer-field x y = rw (pick_signed_field-join x y) (
    Newer-join (λ f. f.update_seq) (choose (λ f. f.update_seq) (λ f. f.signature))
      (choose-le (λ f. f.update_seq) (λ f. f.signature)) x y)

-- If the incoming state is in key order, a merge keeps every place of either state, and every
-- field, ref and extension at a sequence number no lower than in either.
pub merge_state-IsNewer :
    (a b : RepoState) → IsOrdered b → IsNewer a (merge_state a b) × IsNewer b (merge_state a b)
unfolding merge_state pick_ref_entry pick_extension_entry
merge_state-IsNewer a b o =
    let refs = λ (k : Bytes).
      Newer-merge_entries (λ e. e.update_seq) pick_ref_entry
        (choose-le (λ e. e.update_seq) (λ e. e.signature)) a.refs b.refs k o.refs in
    let extensions = λ (k : Bytes).
      Newer-merge_entries (λ e. e.update_seq) pick_extension_entry
        (choose-le (λ e. e.update_seq) (λ e. e.signature)) a.extensions b.extensions k
        o.extensions in
    let bundles = λ (k : Bytes). Newer-add_missing a.object_index b.object_index k o.object_index in
    (
      record {
        name = (Newer-field a.name b.name).0;
        description = (Newer-field a.description b.description).0;
        default_branch = (Newer-field a.default_branch b.default_branch).0;
        force_push_allowed = (Newer-field a.force_push_allowed b.force_push_allowed).0;
        acl = (Newer-field a.acl b.acl).0;
        upgrade = (Newer-field a.upgrade b.upgrade).0;
        refs = λ k. (refs k).0;
        object_index = λ k. (bundles k).0;
        extensions = λ k. (extensions k).0;
      },
      record {
        name = (Newer-field a.name b.name).1;
        description = (Newer-field a.description b.description).1;
        default_branch = (Newer-field a.default_branch b.default_branch).1;
        force_push_allowed = (Newer-field a.force_push_allowed b.force_push_allowed).1;
        acl = (Newer-field a.acl b.acl).1;
        upgrade = (Newer-field a.upgrade b.upgrade).1;
        refs = λ k. (refs k).1;
        object_index = λ k. (bundles k).1;
        extensions = λ k. (extensions k).1;
      },
    )
