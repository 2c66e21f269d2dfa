-- ===== src/Disk/Read.antt =====
-- Reading and removing files, and operations that do not fail.
use freenet_git.Prelude.{
  ◌≡◌, refl, ◌∙◌, ap, Option, none, some, List, [], ◌∷◌, Bytes, arith, Option-cases, inl, inr,
}
use freenet_git.Outcome.{Result, ok, err}
use freenet_git.Disk.{
  Fault, Contents, Disk, and_then, no_change, operation, run, remove_file, read_file, if_present,
}
use freenet_git.Disk.Atomic.{set_same}

-- No operation to come fails.
abbrev pub Quiet : Disk → Type 0
Quiet d = d.faults ≡ []

read_present :
    (x bs : Bytes) (es : List (Option Fault)) (f : Contents)
    → (and_then (λ _ d. (ok x, d)) (run (λ g. g) (λ _ g. g) es f)).0 ≡ ok bs
    → (x ≡ bs) × ((and_then (λ _ d. (ok x, d)) (run (λ g. g) (λ _ g. g) es f)).1.contents ≡ f)
unfolding and_then run
read_present x bs [] f h = (ground arith, refl)
read_present x bs (none ∷ es) f h = (ground arith, refl)
read_present x bs (some e ∷ es) f h = absurd (ground arith)

refused : {A : Type 0} {e : Bytes} {a : A} → (let r : Result Bytes A = err e in r) ≡ ok a → ⊥
refused h = ground arith

-- A read that succeeds gives what the file holds and changes no file.
pub read_file-ok :
    (path bs : Bytes) (d : Disk)
    → (read_file path d).0 ≡ ok bs
    → (d.contents path ≡ some bs) × ((read_file path d).1.contents ≡ d.contents)
unfolding read_file if_present no_change operation
read_file-ok path bs d h = elim (Option-cases (d.contents path)) [
  | inl missing ↦ absurd (refused (rw (missing, read_file) at h))
  | inr (x, held) ↦
      let (e, same) = read_present x bs d.faults d.contents (rw (held, read_file) at h) in
      (held ∙ ap some e, rw (held, read_file) same)
]

-- A read that does not fail.
pub read_file_present :
    (path bs : Bytes) (d : Disk)
    → Quiet d
    → d.contents path ≡ some bs
    → read_file path d ≡ (ok bs, d)
unfolding read_file if_present no_change operation run and_then
read_file_present path bs d q h = rw (h, read_file, q) refl

pub remove_file_present :
    (path bs : Bytes) (d : Disk)
    → Quiet d
    → d.contents path ≡ some bs
    → (remove_file path d).1.contents path ≡ none
unfolding remove_file if_present operation run
remove_file_present path bs d q h = rw (h, remove_file, q) (set_same path none d.contents)

pub remove_file-Quiet : (path : Bytes) (d : Disk) → Quiet d → Quiet (remove_file path d).1
unfolding remove_file if_present operation run
remove_file-Quiet path d q = elim (Option-cases (d.contents path)) [
  | inl missing ↦ rw (missing, remove_file) q
  | inr (bs, held) ↦ rw (held, remove_file, q) refl
]
