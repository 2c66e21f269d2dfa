-- ===== src/Disk.antt =====
-- The file system as far as the program uses it, crates/identity/src/lib.rs and
-- crates/freenet-git/src/pack_cache.rs: the contents of the files by their location, and the error
-- of each operation to come, if it fails.
pub mod Atomic
pub mod Read
use freenet_git.Prelude.{
  ℕ, Bool, true, false, ◌==◌, Option, none, some, List, [], ◌∷◌, ◌++◌, Bytes, bytes, take,
  if◌then◌else◌,
}
use freenet_git.BTreeMap.Order.{eqb}
use freenet_git.Outcome.{Result, ok, err, panic}

-- An error and, of a write, how much was written before it.
pub record Fault : Type 0 where
  pub error : Bytes
  pub written : ℕ

abbrev pub Contents : Type 0
Contents = Bytes → Option Bytes

-- Past the end of the list, operations do not fail.
pub record Disk : Type 0 where
  pub contents : Contents
  pub faults : List (Option Fault)

-- An operation: the text of its error or its value, and the disk after it.
abbrev pub Io : Type 0 → Type 0
Io A = Disk → Result Bytes A × Disk

unfoldable pub set : Bytes → Option Bytes → Contents → Contents
set k v f j = if eqb j k then v else f j

-- `?` after an operation.
unfoldable pub and_then :
    {A B : Type 0} → (A → Io B) → Result Bytes A × Disk → Result Bytes B × Disk
and_then f (ok a, d) = f a d
and_then f (err e, d) = (err e, d)
and_then f (panic, d) = (panic, d)

infixl 5 ◌>>=◌ ◌>>◌
abbrev pub ◌>>=◌ : {A B : Type 0} → Io A → (A → Io B) → Io B
◌>>=◌ m f d = and_then f (m d)

abbrev pub ◌>>◌ : {B : Type 0} → Io (Unit {0}) → Io B → Io B
m >> k = m >>= λ _. k

-- An operation that changes the contents one way if it succeeds and another if it fails.
unfoldable pub run :
    (Contents → Contents)
    → (Fault → Contents → Contents)
    → List (Option Fault)
    → Contents
    → Result Bytes (Unit {0}) × Disk
run good bad [] f = (ok tt, record { contents = good f; faults = [] })
run good bad (none ∷ es) f = (ok tt, record { contents = good f; faults = es })
run good bad (some e ∷ es) f = (err e.error, record { contents = bad e f; faults = es })

unfoldable pub operation : (Contents → Contents) → (Fault → Contents → Contents) → Io (Unit {0})
operation good bad d = run good bad d.faults d.contents

-- Operations that change no contents: making directories, `sync_all`, reading and setting
-- permissions.
unfoldable pub no_change : Io (Unit {0})
no_change = operation (λ f. f) (λ _ f. f)

-- `OpenOptions` with `create` and `truncate`.
unfoldable pub open_truncate : Bytes → Io (Unit {0})
open_truncate p = operation (set p (some [])) (λ _ f. f)

-- An operation on a file that is not there, or on one that is.
unfoldable pub if_absent : {A : Type 0} → Option Bytes → Io A → Io A
if_absent none m d = m d
if_absent (some bs) m d = (err (bytes "exists"), d)

unfoldable pub if_present : {A : Type 0} → Option Bytes → (Bytes → Io A) → Io A
if_present none m d = (err (bytes "not found"), d)
if_present (some bs) m d = m bs d

-- `OpenOptions` with `create_new`.
unfoldable pub open_new : Bytes → Io (Unit {0})
open_new p d = if_absent (d.contents p) (operation (set p (some [])) (λ _ f. f)) d

-- `write_all` to a file just opened: it may fail with a part written.
unfoldable pub write_all : Bytes → Bytes → Io (Unit {0})
write_all p bs = operation (set p (some bs)) (λ e. set p (some (take e.written bs)))

unfoldable pub rename : Bytes → Bytes → Io (Unit {0})
rename p q d =
    if_present (d.contents p) (λ bs. operation (λ f. set q (some bs) (set p none f)) (λ _ f. f)) d

unfoldable pub remove_file : Bytes → Io (Unit {0})
remove_file p d = if_present (d.contents p) (λ _. operation (set p none) (λ _ f. f)) d

-- `std::fs::read`.
unfoldable pub read_file : Bytes → Io Bytes
read_file p d = if_present (d.contents p) (λ bs. no_change >> λ d'. (ok bs, d')) d

-- `Path::join` with a relative path.
unfoldable pub ends_with_slash : Bytes → Bool
ends_with_slash [] = false
ends_with_slash (x ∷ []) = x == 47
ends_with_slash (x ∷ y ∷ ys) = ends_with_slash (y ∷ ys)

unfoldable pub join : Bytes → Bytes → Bytes
join [] p = p
join (x ∷ dir) p = if ends_with_slash (x ∷ dir) then (x ∷ dir) ++ p else (x ∷ dir) ++ bytes "/" ++ p

-- A path: its parent, if it has one, and its file name.
pub record FilePath : Type 0 where
  pub parent : Option Bytes
  pub name : Bytes

-- The key of a path's file in the contents.
unfoldable pub location : FilePath → Bytes
location p = elim (p.parent) [ none ↦ p.name | some dir ↦ dir ++ bytes "/" ++ p.name ]

-- `path.parent().unwrap_or(Path::new("."))`.
unfoldable pub parent_or_dot : FilePath → Bytes
parent_or_dot p = elim (p.parent) [ none ↦ bytes "." | some dir ↦ dir ]
