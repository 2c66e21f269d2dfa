-- ===== src/Repo/Merge/Join.antt =====
-- Algebra of the merge loops, lifted from their picks.
use freenet_git.Prelude.{◌≡◌, refl, sym, ◌∙◌, ap, Option, none, some, Bytes}
use freenet_git.BTreeMap.{BTreeMap, get}
use freenet_git.BTreeMap.Laws.{IsSorted, sorted_ext}
use freenet_git.Repo.State.{SignedField}
use freenet_git.Repo.Merge.{merge_entries, add_missing, pick_signed_field}
use freenet_git.Repo.Merge.Pick.{join, choose, choose_self, choose_assoc}
use freenet_git.Repo.Merge.Lookup.{
  get-merge_entries, get-add_missing, merge_entries-IsSorted, add_missing-IsSorted,
}

module _ {V : Type 0} where
  abbrev pub Assoc : (V → V → V) → Type 0
  Assoc f = (a b c : V) → f (f a b) c ≡ f a (f b c)

  pub join-Assoc :
      (f : V → V → V) → Assoc f → (x y z : Option V) → join f (join f x y) z ≡ join f x (join f y z)
  join-Assoc f h none y z = refl
  join-Assoc f h (some a) none z = refl
  join-Assoc f h (some a) (some b) none = refl
  join-Assoc f h (some a) (some b) (some c) = ap some (h a b c)

  pub join_self : (f : V → V → V) → ((a : V) → f a a ≡ a) → (x : Option V) → join f x x ≡ x
  join_self f h none = refl
  join_self f h (some a) = ap some (h a)

  -- Two entries of one key that may be swapped.
  abbrev pub Swap : (V → V → V) → Option V → Option V → Type 0
  Swap f none y = Unit
  Swap f (some a) none = Unit
  Swap f (some a) (some b) = f a b ≡ f b a

  pub join_comm : (f : V → V → V) (x y : Option V) → Swap f x y → join f x y ≡ join f y x
  join_comm f none none h = refl
  join_comm f none (some b) h = refl
  join_comm f (some a) none h = refl
  join_comm f (some a) (some b) h = ap some h

  pub merge_entries-Assoc :
      (f : V → V → V) (a b c : BTreeMap V)
      → Assoc f
      → IsSorted a
      → IsSorted b
      → IsSorted c
      → merge_entries f (merge_entries f a b) c ≡ merge_entries f a (merge_entries f b c)
  merge_entries-Assoc f a b c h sa sb sc =
      sorted_ext _ _ (merge_entries-IsSorted f _ c (merge_entries-IsSorted f a b sa))
        (merge_entries-IsSorted f a _ sa)
        (λ j. cc (
          get-merge_entries f j (merge_entries f a b) c sc,
          get-merge_entries f j a b sb,
          get-merge_entries f j a (merge_entries f b c) (merge_entries-IsSorted f b c sb),
          get-merge_entries f j b c sc,
          join-Assoc f h (get j a) (get j b) (get j c),
        ))

  pub merge_entries_self :
      (f : V → V → V) (a : BTreeMap V)
      → ((x : V) → f x x ≡ x)
      → IsSorted a
      → merge_entries f a a ≡ a
  merge_entries_self f a h sa =
      sorted_ext _ _ (merge_entries-IsSorted f a a sa) sa
        (λ j. get-merge_entries f j a a sa ∙ join_self f h (get j a))

  pub merge_entries_comm :
      (f : V → V → V) (a b : BTreeMap V)
      → ((j : Bytes) → Swap f (get j a) (get j b))
      → IsSorted a
      → IsSorted b
      → merge_entries f a b ≡ merge_entries f b a
  merge_entries_comm f a b h sa sb =
      sorted_ext _ _ (merge_entries-IsSorted f a b sa) (merge_entries-IsSorted f b a sb) (λ j.
        get-merge_entries f j a b sb
        ∙ join_comm f (get j a) (get j b) (h j)
        ∙ sym (get-merge_entries f j b a sa))

  -- Adding what is missing is merging with the left pick.
  pub add_missing-merge_entries :
      (a b : BTreeMap V) → IsSorted a → IsSorted b → add_missing a b ≡ merge_entries (λ x y. x) a b
  add_missing-merge_entries a b sa sb =
      sorted_ext _ _ (add_missing-IsSorted a b sa) (merge_entries-IsSorted (λ x y. x) a b sa)
        (λ j. get-add_missing j a b sb ∙ sym (get-merge_entries (λ x y. x) j a b sb))

module _ {T : Type 0} where
  pub pick_signed_field-join :
      (x y : Option (SignedField T))
      → pick_signed_field x y ≡ join (choose (λ f. f.update_seq) (λ f. f.signature)) x y
  unfolding pick_signed_field
  pick_signed_field-join none y = refl
  pick_signed_field-join (some x) none = refl
  pick_signed_field-join (some x) (some y) = refl

  pub pick_signed_field_assoc :
      (x y z : Option (SignedField T))
      → pick_signed_field (pick_signed_field x y) z ≡ pick_signed_field x (pick_signed_field y z)
  pick_signed_field_assoc x y z =
      simp pick_signed_field-join
        (join-Assoc _ (choose_assoc (λ f. f.update_seq) (λ f. f.signature)) x y z)

  pub pick_signed_field_self : (x : Option (SignedField T)) → pick_signed_field x x ≡ x
  pick_signed_field_self x =
      simp pick_signed_field-join
        (join_self _ (choose_self (λ f. f.update_seq) (λ f. f.signature)) x)
