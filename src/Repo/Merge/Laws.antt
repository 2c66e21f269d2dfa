-- ===== src/Repo/Merge/Laws.antt =====
-- The CRDT laws of `merge_state`, as equations between whole states.
use freenet_git.Prelude.{ℕ, ◌≡◌, refl, sym, ◌∙◌, Option, none, some, Bytes}
use freenet_git.BTreeMap.{BTreeMap, get}
use freenet_git.BTreeMap.Laws.{IsSorted}
use freenet_git.Repo.State.{SignedField, RefEntry, ExtensionEntry, RepoState, IsOrdered}
use freenet_git.Repo.Merge.{
  merge_state, merge_entries, add_missing, pick_signed_field, pick_ref_entry, pick_extension_entry,
}
use freenet_git.Repo.Merge.Pick.{choose, choose_self, choose_assoc, choose_comm}
use freenet_git.Repo.Merge.Lookup.{merge_entries-IsSorted, add_missing-IsSorted}
use freenet_git.Repo.Merge.Join.{
  Swap, join_comm, merge_entries-Assoc, merge_entries_self, merge_entries_comm,
  add_missing-merge_entries, pick_signed_field-join, pick_signed_field_assoc,
  pick_signed_field_self,
}

pub merge_state-IsOrdered : (a b : RepoState) → IsOrdered a → IsOrdered (merge_state a b)
unfolding merge_state
merge_state-IsOrdered a b o = record {
  refs = merge_entries-IsSorted pick_ref_entry a.refs b.refs o.refs;
  object_index = add_missing-IsSorted a.object_index b.object_index o.object_index;
  extensions = merge_entries-IsSorted pick_extension_entry a.extensions b.extensions o.extensions;
}

ref_assoc :
    (a b c : RefEntry)
    → pick_ref_entry (pick_ref_entry a b) c ≡ pick_ref_entry a (pick_ref_entry b c)
unfolding pick_ref_entry
ref_assoc a b c = choose_assoc (λ e. e.update_seq) (λ e. e.signature) a b c

ref_self : (a : RefEntry) → pick_ref_entry a a ≡ a
unfolding pick_ref_entry
ref_self a = choose_self (λ e. e.update_seq) (λ e. e.signature) a

extension_assoc :
    (a b c : ExtensionEntry)
    → pick_extension_entry (pick_extension_entry a b) c
      ≡ pick_extension_entry a (pick_extension_entry b c)
unfolding pick_extension_entry
extension_assoc a b c = choose_assoc (λ e. e.update_seq) (λ e. e.signature) a b c

extension_self : (a : ExtensionEntry) → pick_extension_entry a a ≡ a
unfolding pick_extension_entry
extension_self a = choose_self (λ e. e.update_seq) (λ e. e.signature) a

missing_assoc :
    {V : Type 0} (a b c : BTreeMap V)
    → IsSorted a
    → IsSorted b
    → IsSorted c
    → add_missing (add_missing a b) c ≡ add_missing a (add_missing b c)
missing_assoc a b c sa sb sc = cc (
  add_missing-merge_entries (add_missing a b) c (add_missing-IsSorted a b sa) sc,
  add_missing-merge_entries a b sa sb,
  merge_entries-Assoc (λ x y. x) a b c (λ x y z. refl) sa sb sc,
  add_missing-merge_entries b c sb sc,
  add_missing-merge_entries a (add_missing b c) sa (add_missing-IsSorted b c sb),
)

-- How the merges of three states in key order are grouped makes no difference.
pub merge_state_assoc :
    (a b c : RepoState)
    → IsOrdered a
    → IsOrdered b
    → IsOrdered c
    → merge_state (merge_state a b) c ≡ merge_state a (merge_state b c)
unfolding merge_state
merge_state_assoc a b c oa ob oc = λ i. record {
  owner = a.owner;
  name = pick_signed_field_assoc a.name b.name c.name i;
  description = pick_signed_field_assoc a.description b.description c.description i;
  default_branch = pick_signed_field_assoc a.default_branch b.default_branch c.default_branch i;
  force_push_allowed =
      pick_signed_field_assoc a.force_push_allowed b.force_push_allowed c.force_push_allowed i;
  acl = pick_signed_field_assoc a.acl b.acl c.acl i;
  upgrade = pick_signed_field_assoc a.upgrade b.upgrade c.upgrade i;
  refs =
      merge_entries-Assoc pick_ref_entry a.refs b.refs c.refs ref_assoc oa.refs ob.refs oc.refs i;
  object_index =
      missing_assoc a.object_index b.object_index c.object_index oa.object_index ob.object_index
        oc.object_index i;
  extensions =
      merge_entries-Assoc pick_extension_entry a.extensions b.extensions c.extensions
        extension_assoc oa.extensions ob.extensions oc.extensions i;
}

missing_self : {V : Type 0} (a : BTreeMap V) → IsSorted a → add_missing a a ≡ a
missing_self a s = add_missing-merge_entries a a s s ∙ merge_entries_self (λ x y. x) a (λ x. refl) s

-- Merging a state in key order with itself changes nothing.
pub merge_state_self : (s : RepoState) → IsOrdered s → merge_state s s ≡ s
unfolding merge_state
merge_state_self s o = λ i. record {
  owner = s.owner;
  name = pick_signed_field_self s.name i;
  description = pick_signed_field_self s.description i;
  default_branch = pick_signed_field_self s.default_branch i;
  force_push_allowed = pick_signed_field_self s.force_push_allowed i;
  acl = pick_signed_field_self s.acl i;
  upgrade = pick_signed_field_self s.upgrade i;
  refs = merge_entries_self pick_ref_entry s.refs ref_self o.refs i;
  object_index = missing_self s.object_index o.object_index i;
  extensions = merge_entries_self pick_extension_entry s.extensions extension_self o.extensions i;
}

-- Two entries of one place with one sequence number and one signature are one entry.
abbrev pub OneStamp : {V : Type 0} → (V → ℕ) → (V → Bytes) → Option V → Option V → Type 0
OneStamp seq sig none y = Unit
OneStamp seq sig (some a) none = Unit
OneStamp seq sig (some a) (some b) = seq a ≡ seq b → sig a ≡ sig b → a ≡ b

abbrev pub OneField : {T : Type 0} → Option (SignedField T) → Option (SignedField T) → Type 0
OneField = OneStamp (λ f. f.update_seq) (λ f. f.signature)

-- Two records of one bundle are equal.
abbrev pub OneRecord : {V : Type 0} → Option V → Option V → Type 0
OneRecord none y = Unit
OneRecord (some a) none = Unit
OneRecord (some a) (some b) = a ≡ b

-- States of one repo in which no stamp stands for two contents.
pub record Coherent (a b : RepoState) : Type 0 where
  pub owner : a.owner ≡ b.owner
  pub name : OneField a.name b.name
  pub description : OneField a.description b.description
  pub default_branch : OneField a.default_branch b.default_branch
  pub force_push_allowed : OneField a.force_push_allowed b.force_push_allowed
  pub acl : OneField a.acl b.acl
  pub upgrade : OneField a.upgrade b.upgrade
  pub refs :
      (k : Bytes) → OneStamp (λ e. e.update_seq) (λ e. e.signature) (get k a.refs) (get k b.refs)
  pub object_index : (k : Bytes) → OneRecord (get k a.object_index) (get k b.object_index)
  pub extensions :
      (k : Bytes)
      → OneStamp (λ e. e.update_seq) (λ e. e.signature) (get k a.extensions) (get k b.extensions)

OneStamp-Swap :
    {V : Type 0} (seq : V → ℕ) (sig : V → Bytes) (x y : Option V)
    → OneStamp seq sig x y
    → Swap (choose seq sig) x y
OneStamp-Swap seq sig none y h = tt
OneStamp-Swap seq sig (some a) none h = tt
OneStamp-Swap seq sig (some a) (some b) h = choose_comm seq sig a b h

OneRecord-Swap : {V : Type 0} (x y : Option V) → OneRecord x y → Swap (λ a b. a) x y
OneRecord-Swap none y h = tt
OneRecord-Swap (some a) none h = tt
OneRecord-Swap (some a) (some b) h = h

field_comm :
    {T : Type 0} (x y : Option (SignedField T))
    → OneField x y
    → pick_signed_field x y ≡ pick_signed_field y x
field_comm x y h = simp pick_signed_field-join (
    join_comm (choose (λ f. f.update_seq) (λ f. f.signature)) x y
      (OneStamp-Swap (λ f. f.update_seq) (λ f. f.signature) x y h))

refs_comm :
    (a b : RepoState)
    → Coherent a b
    → IsOrdered a
    → IsOrdered b
    → merge_entries pick_ref_entry a.refs b.refs ≡ merge_entries pick_ref_entry b.refs a.refs
unfolding pick_ref_entry
refs_comm a b h oa ob =
    merge_entries_comm pick_ref_entry a.refs b.refs
      (λ k.
        OneStamp-Swap (λ e. e.update_seq) (λ e. e.signature) (get k a.refs) (get k b.refs)
          (h.refs k))
      oa.refs ob.refs

extensions_comm :
    (a b : RepoState)
    → Coherent a b
    → IsOrdered a
    → IsOrdered b
    → merge_entries pick_extension_entry a.extensions b.extensions
      ≡ merge_entries pick_extension_entry b.extensions a.extensions
unfolding pick_extension_entry
extensions_comm a b h oa ob =
    merge_entries_comm pick_extension_entry a.extensions b.extensions
      (λ k.
        OneStamp-Swap (λ e. e.update_seq) (λ e. e.signature) (get k a.extensions)
          (get k b.extensions) (h.extensions k))
      oa.extensions ob.extensions

missing_comm :
    (a b : RepoState)
    → Coherent a b
    → IsOrdered a
    → IsOrdered b
    → add_missing a.object_index b.object_index ≡ add_missing b.object_index a.object_index
missing_comm a b h oa ob =
    add_missing-merge_entries a.object_index b.object_index oa.object_index ob.object_index
    ∙ merge_entries_comm (λ x y. x) a.object_index b.object_index
        (λ k. OneRecord-Swap (get k a.object_index) (get k b.object_index) (h.object_index k))
        oa.object_index ob.object_index
    ∙ sym (add_missing-merge_entries b.object_index a.object_index ob.object_index oa.object_index)

-- For two states of one owner, in key order, in which no sequence number and signature of a
-- place stand for two entries and no bundle has two records, it makes no difference which is
-- merged into which.
pub merge_state_comm :
    (a b : RepoState) → Coherent a b → IsOrdered a → IsOrdered b → merge_state a b ≡ merge_state b a
unfolding merge_state
merge_state_comm a b h oa ob = λ i. record {
  owner = h.owner i;
  name = field_comm a.name b.name h.name i;
  description = field_comm a.description b.description h.description i;
  default_branch = field_comm a.default_branch b.default_branch h.default_branch i;
  force_push_allowed = field_comm a.force_push_allowed b.force_push_allowed h.force_push_allowed i;
  acl = field_comm a.acl b.acl h.acl i;
  upgrade = field_comm a.upgrade b.upgrade h.upgrade i;
  refs = refs_comm a b h oa ob i;
  object_index = missing_comm a b h oa ob i;
  extensions = extensions_comm a b h oa ob i;
}
