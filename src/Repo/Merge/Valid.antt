-- ===== src/Repo/Merge/Valid.antt =====
-- Merging keeps a state acceptable, and `update_state` succeeds on acceptable states.
use freenet_git.Prelude.{◌≡◌, refl, Option, none, some, Bytes, arith}
use freenet_git.BTreeMap.{BTreeMap, get}
use freenet_git.BTreeMap.Laws.{IsSorted}
use freenet_git.Crypto.{Crypto}
use freenet_git.Outcome.{Result, ok, err, panic, map_err, ◌>>=◌}
use freenet_git.Repo.State.{RepoParams, SignedField, RepoState, ValidateError, IsOrdered}
use freenet_git.Repo.Validate.{validate_state}
use freenet_git.Repo.Validate.Checks.{IfSome}
use freenet_git.Repo.Validate.Authorized.{IsAuthorized}
use freenet_git.Repo.Validate.Exact.{validate_state_iff}
use freenet_git.Repo.Merge.{
  merge_state, merge_entries, add_missing, pick_signed_field, pick_ref_entry, pick_extension_entry,
  UpdateError, invalid, update_state,
}
use freenet_git.Repo.Merge.Pick.{join, choose, choose_either}
use freenet_git.Repo.Merge.Lookup.{get-merge_entries, get-add_missing}
use freenet_git.Repo.Merge.Join.{pick_signed_field-join}
use freenet_git.Repo.Merge.Laws.{merge_state-IsOrdered}

-- What holds of both sides holds of their join, if the join takes one side.
IfSome-join :
    {V : Type 0} (P : V → Type 0) (f : V → V → V) (x y : Option V)
    → ((a b : V) → P a → P b → P (f a b))
    → IfSome x P
    → IfSome y P
    → IfSome (join f x y) P
IfSome-join P f none y h p q = q
IfSome-join P f (some a) none h p q = p
IfSome-join P f (some a) (some b) h p q = h a b p q

IfSome-field :
    {T : Type 0} (P : SignedField T → Type 0) (x y : Option (SignedField T))
    → IfSome x P
    → IfSome y P
    → IfSome (pick_signed_field x y) P
IfSome-field P x y p q = rw (pick_signed_field-join x y) (
    IfSome-join P (choose (λ f. f.update_seq) (λ f. f.signature)) x y
      (choose_either (λ f. f.update_seq) (λ f. f.signature) P) p q)

IfSome-entries :
    {V : Type 0} (P : V → Type 0) (f : V → V → V) (a b : BTreeMap V) (k : Bytes)
    → IsSorted b
    → ((v w : V) → P v → P w → P (f v w))
    → IfSome (get k a) P
    → IfSome (get k b) P
    → IfSome (get k (merge_entries f a b)) P
IfSome-entries P f a b k s h p q =
    rw (get-merge_entries f k a b s) (IfSome-join P f (get k a) (get k b) h p q)

IfSome-missing :
    {V : Type 0} (P : V → Type 0) (a b : BTreeMap V) (k : Bytes)
    → IsSorted b
    → IfSome (get k a) P
    → IfSome (get k b) P
    → IfSome (get k (add_missing a b)) P
IfSome-missing P a b k s p q =
    rw (get-add_missing k a b s) (IfSome-join P (λ x y. x) (get k a) (get k b) (λ v w x y. x) p q)

-- The merge of two authorised states of one owner is authorised.
merge_state-IsAuthorized :
    (c : Crypto) (params : RepoParams) (a b : RepoState)
    → IsOrdered b
    → a.owner ≡ b.owner
    → IsAuthorized c params a
    → IsAuthorized c params b
    → IsAuthorized c params (merge_state a b)
unfolding merge_state pick_ref_entry pick_extension_entry
merge_state-IsAuthorized c params a b o e va vb = record {
  long_enough = va.long_enough;
  short_enough = va.short_enough;
  base58 = va.base58;
  prefix_matches = va.prefix_matches;
  name = IfSome-field _ a.name b.name va.name (rw e vb.name);
  description = IfSome-field _ a.description b.description va.description (rw e vb.description);
  default_branch =
      IfSome-field _ a.default_branch b.default_branch va.default_branch (rw e vb.default_branch);
  force_push_allowed =
      IfSome-field _ a.force_push_allowed b.force_push_allowed va.force_push_allowed
        (rw e vb.force_push_allowed);
  acl = IfSome-field _ a.acl b.acl va.acl (rw e vb.acl);
  upgrade = IfSome-field _ a.upgrade b.upgrade va.upgrade (rw e vb.upgrade);
  refs = λ k.
      IfSome-entries _ pick_ref_entry a.refs b.refs k o.refs
        (choose_either (λ r. r.update_seq) (λ r. r.signature) _) (va.refs k) (rw e (vb.refs k));
  object_index = λ k.
      IfSome-missing _ a.object_index b.object_index k o.object_index (va.object_index k)
        (rw e (vb.object_index k));
  extensions = λ k.
      IfSome-entries _ pick_extension_entry a.extensions b.extensions k o.extensions
        (choose_either (λ r. r.update_seq) (λ r. r.signature) _) (va.extensions k)
        (rw e (vb.extensions k));
}

-- If two states of one owner, in key order, both pass validation, updating the one by the
-- other succeeds, and the result, their merge, passes too.
pub update_state_valid :
    (c : Crypto) (params : RepoParams) (a b : RepoState)
    → IsOrdered a
    → IsOrdered b
    → a.owner ≡ b.owner
    → validate_state c params a ≡ ok tt
    → validate_state c params b ≡ ok tt
    → (update_state c params a b ≡ ok (merge_state a b))
      × (validate_state c params (merge_state a b) ≡ ok tt)
unfolding update_state
update_state_valid c params a b oa ob e va vb =
    let valid = (validate_state_iff c params (merge_state a b) (merge_state-IsOrdered a b oa)).1 (
      merge_state-IsAuthorized c params a b ob e ((validate_state_iff c params a oa).0 va)
        ((validate_state_iff c params b ob).0 vb)) in
    (rw valid, valid)

succeeded :
    (r : Result ValidateError (Unit {0})) (x m : RepoState)
    → (map_err invalid r >>= λ _. ok x) ≡ ok m
    → (r ≡ ok tt) × (m ≡ x)
succeeded (ok tt) x m h = (refl, cc)
succeeded (err v) x m h = absurd (ground arith)
succeeded panic x m h = absurd (ground arith)

failed :
    (r : Result ValidateError (Unit {0})) (x : RepoState) (e : UpdateError)
    → (map_err invalid r >>= λ _. ok x) ≡ err e
    → (v : ValidateError) × (e ≡ invalid v) × (r ≡ err v)
failed (ok tt) x e h = absurd (ground arith)
failed (err v) x e h = (v, cc, refl)
failed panic x e h = absurd (ground arith)

-- Whatever the delta: a successful update is the merge, keeps the owner of the current state, and
-- passes validation; and an error is the one that validating the merge gives.
pub update_state_outcome :
    (c : Crypto) (params : RepoParams) (a d : RepoState)
    → ((m : RepoState)
        → update_state c params a d ≡ ok m
        → (m ≡ merge_state a d) × (m.owner ≡ a.owner) × (validate_state c params m ≡ ok tt))
      × ((e : UpdateError)
          → update_state c params a d ≡ err e
          → (v : ValidateError) × (e ≡ invalid v)
            × (validate_state c params (merge_state a d) ≡ err v))
unfolding update_state
update_state_outcome c params a d =
    let r = validate_state c params (merge_state a d) in
    (
      λ m h.
          let (valid, same) = succeeded r (merge_state a d) m h in
          (same, rw same (unfold merge_state in refl), rw same valid),
      λ e h. failed r (merge_state a d) e h,
    )
