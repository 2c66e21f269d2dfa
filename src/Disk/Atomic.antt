-- ===== src/Disk/Atomic.antt =====
-- A file that is written beside its place and renamed is replaced as a whole or not at all.
use freenet_git.Prelude.{
  ◌≡◌, ◌≢◌, refl, ◌∙◌, sym, ap, ◌⊎◌, inl, inr, Option, none, some, List, [], ◌∷◌, Bytes, arith,
  Bool-cases,
}
use freenet_git.BTreeMap.Order.{eqb, eqb_refl, eqb→eq}
use freenet_git.Outcome.{Result, ok, err, panic}
use freenet_git.Disk.{
  Fault, Contents, Disk, Io, set, and_then, ◌>>◌, run, operation, no_change, open_truncate,
  open_new, write_all, rename, remove_file, if_absent, if_present,
}

-- An operation that changes at most one file, and does not panic.
pub record Touches (tmp : Bytes) (m : Io (Unit {0})) : Type 0 where
  pub elsewhere : (d : Disk) (k : Bytes) → (k ≡ tmp) ⊎ ((m d).1.contents k ≡ d.contents k)
  pub returns : (d : Disk) → (m d).0 ≢ panic

-- What the disk is after an attempt to put bytes in the place of a file by way of another.
pub record Replaces (path tmp bytes : Bytes) (d : Disk) (r : Result Bytes (Unit {0})) (d' : Disk)
    : Type 0 where
  pub elsewhere : (k : Bytes) → (k ≡ path) ⊎ ((k ≡ tmp) ⊎ (d'.contents k ≡ d.contents k))
  pub outcome :
      ((r ≡ ok tt) × (d'.contents path ≡ some bytes) × (d'.contents tmp ≡ none))
      ⊎ ((e : Bytes) × (r ≡ err e) × (d'.contents path ≡ d.contents path))

set_other : (j k : Bytes) (v : Option Bytes) (f : Contents) → (j ≡ k) ⊎ (set k v f j ≡ f j)
unfolding set
set_other j k v f = elim (Bool-cases (eqb j k)) [
  | inl same ↦ inl (eqb→eq j k same)
  | inr other ↦ inr (rw other)
]

pub set_same : (k : Bytes) (v : Option Bytes) (f : Contents) → set k v f k ≡ v
unfolding set
set_same k v f = rw (eqb_refl k)

run-elsewhere :
    (good : Contents → Contents) (bad : Fault → Contents → Contents) (tmp : Bytes)
    → ((f : Contents) (k : Bytes) → (k ≡ tmp) ⊎ (good f k ≡ f k))
    → ((e : Fault) (f : Contents) (k : Bytes) → (k ≡ tmp) ⊎ (bad e f k ≡ f k))
    → (es : List (Option Fault)) (f : Contents) (k : Bytes)
    → (k ≡ tmp) ⊎ ((run good bad es f).1.contents k ≡ f k)
unfolding run
run-elsewhere good bad tmp g b [] f k = g f k
run-elsewhere good bad tmp g b (none ∷ es) f k = g f k
run-elsewhere good bad tmp g b (some e ∷ es) f k = b e f k

run-returns :
    (good : Contents → Contents) (bad : Fault → Contents → Contents) (es : List (Option Fault))
    (f : Contents)
    → (run good bad es f).0 ≢ panic
unfolding run
run-returns good bad [] f = λ e. ground arith
run-returns good bad (none ∷ es) f = λ e. ground arith
run-returns good bad (some x ∷ es) f = λ e. ground arith

-- A run that succeeds has changed the contents the good way.
run-ok :
    (good : Contents → Contents) (bad : Fault → Contents → Contents) (es : List (Option Fault))
    (f : Contents)
    → (run good bad es f).0 ≡ ok tt
    → (run good bad es f).1.contents ≡ good f
unfolding run
run-ok good bad [] f h = refl
run-ok good bad (none ∷ es) f h = refl
run-ok good bad (some e ∷ es) f h = absurd (ground arith)

operation-Touches :
    (good : Contents → Contents) (bad : Fault → Contents → Contents) (tmp : Bytes)
    → ((f : Contents) (k : Bytes) → (k ≡ tmp) ⊎ (good f k ≡ f k))
    → ((e : Fault) (f : Contents) (k : Bytes) → (k ≡ tmp) ⊎ (bad e f k ≡ f k))
    → Touches tmp (operation good bad)
unfolding operation
operation-Touches good bad tmp g b = record {
  elsewhere = λ d k. run-elsewhere good bad tmp g b d.faults d.contents k;
  returns = λ d. run-returns good bad d.faults d.contents;
}

pub no_change-Touches : (tmp : Bytes) → Touches tmp no_change
unfolding no_change
no_change-Touches tmp = operation-Touches _ _ tmp (λ f k. inr refl) (λ e f k. inr refl)

pub open_truncate-Touches : (tmp : Bytes) → Touches tmp (open_truncate tmp)
unfolding open_truncate
open_truncate-Touches tmp =
    operation-Touches _ _ tmp (λ f k. set_other k tmp (some []) f) (λ e f k. inr refl)

pub write_all-Touches : (tmp bs : Bytes) → Touches tmp (write_all tmp bs)
unfolding write_all
write_all-Touches tmp bs =
    operation-Touches _ _ tmp (λ f k. set_other k tmp _ f) (λ e f k. set_other k tmp _ f)

pub open_new-Touches : (tmp : Bytes) → Touches tmp (open_new tmp)
unfolding open_new if_absent
open_new-Touches tmp =
    let t = operation-Touches _ _ tmp (λ f k. set_other k tmp (some []) f) (λ e f k. inr refl) in
    record {
      elsewhere = λ d k. absent-elsewhere tmp (d.contents tmp) _ d k t;
      returns = λ d. absent-returns tmp (d.contents tmp) _ d t;
    }
  where
    absent-elsewhere :
        (tmp : Bytes) (o : Option Bytes) (m : Io (Unit {0})) (d : Disk) (k : Bytes)
        → Touches tmp m
        → (k ≡ tmp) ⊎ ((if_absent o m d).1.contents k ≡ d.contents k)
    absent-elsewhere tmp none m d k t = t.elsewhere d k
    absent-elsewhere tmp (some bs) m d k t = inr refl

    absent-returns :
        (tmp : Bytes) (o : Option Bytes) (m : Io (Unit {0})) (d : Disk)
        → Touches tmp m
        → (if_absent o m d).0 ≢ panic
    absent-returns tmp none m d t = t.returns d
    absent-returns tmp (some bs) m d t = λ e. ground arith

pub remove_file-Touches : (tmp : Bytes) → Touches tmp (remove_file tmp)
unfolding remove_file if_present
remove_file-Touches tmp =
    let t = operation-Touches _ _ tmp (λ f k. set_other k tmp none f) (λ e f k. inr refl) in
    record {
      elsewhere = λ d k. present-elsewhere tmp (d.contents tmp) _ d k t;
      returns = λ d. present-returns tmp (d.contents tmp) _ d t;
    }
  where
    present-elsewhere :
        (tmp : Bytes) (o : Option Bytes) (m : Io (Unit {0})) (d : Disk) (k : Bytes)
        → Touches tmp m
        → (k ≡ tmp) ⊎ ((if_present o (λ _. m) d).1.contents k ≡ d.contents k)
    present-elsewhere tmp none m d k t = inr refl
    present-elsewhere tmp (some bs) m d k t = t.elsewhere d k

    present-returns :
        (tmp : Bytes) (o : Option Bytes) (m : Io (Unit {0})) (d : Disk)
        → Touches tmp m
        → (if_present o (λ _. m) d).0 ≢ panic
    present-returns tmp none m d t = λ e. ground arith
    present-returns tmp (some bs) m d t = t.returns d

and_then-elsewhere :
    (tmp : Bytes) (n : Io (Unit {0})) (p : Result Bytes (Unit {0}) × Disk) (k : Bytes)
    (before : Option Bytes)
    → Touches tmp n
    → (k ≡ tmp) ⊎ (p.1.contents k ≡ before)
    → (k ≡ tmp) ⊎ ((and_then (λ _. n) p).1.contents k ≡ before)
unfolding and_then
and_then-elsewhere tmp n (ok u, d) k before t (inl e) = inl e
and_then-elsewhere tmp n (ok u, d) k before t (inr e) = elim (t.elsewhere d k) [
  | inl same ↦ inl same
  | inr kept ↦ inr (kept ∙ e)
]
and_then-elsewhere tmp n (err x, d) k before t h = h
and_then-elsewhere tmp n (panic, d) k before t h = h

and_then-returns :
    (tmp : Bytes) (n : Io (Unit {0})) (p : Result Bytes (Unit {0}) × Disk)
    → Touches tmp n
    → p.0 ≢ panic
    → (and_then (λ _. n) p).0 ≢ panic
unfolding and_then
and_then-returns tmp n (ok u, d) t h = t.returns d
and_then-returns tmp n (err x, d) t h = λ e. ground arith
and_then-returns tmp n (panic, d) t h = absurd (h refl)

pub >>-Touches :
    (tmp : Bytes) (m n : Io (Unit {0})) → Touches tmp m → Touches tmp n → Touches tmp (m >> n)
>>-Touches tmp m n tm tn = record {
  elsewhere = λ d k. and_then-elsewhere tmp n (m d) k (d.contents k) tn (tm.elsewhere d k);
  returns = λ d. and_then-returns tmp n (m d) tn (tm.returns d);
}

-- Once the operation succeeds, the file holds the bytes.
abbrev pub Leaves : Bytes → Bytes → Io (Unit {0}) → Type 0
Leaves tmp bytes m = (d : Disk) → (m d).0 ≡ ok tt → (m d).1.contents tmp ≡ some bytes

pub write_all-Leaves : (tmp bs : Bytes) → Leaves tmp bs (write_all tmp bs)
unfolding write_all operation
write_all-Leaves tmp bs d h =
    ap (λ f. f tmp) (run-ok (set tmp (some bs)) _ d.faults d.contents h)
    ∙ set_same tmp (some bs) d.contents

and_then-Leaves :
    (tmp bs : Bytes) (n : Io (Unit {0})) (p : Result Bytes (Unit {0}) × Disk)
    → Leaves tmp bs n
    → (and_then (λ _. n) p).0 ≡ ok tt
    → (and_then (λ _. n) p).1.contents tmp ≡ some bs
unfolding and_then
and_then-Leaves tmp bs n (ok u, d) l h = l d h
and_then-Leaves tmp bs n (err x, d) l h = absurd (ground arith)
and_then-Leaves tmp bs n (panic, d) l h = absurd (ground arith)

pub >>-Leaves : (tmp bs : Bytes) (m n : Io (Unit {0})) → Leaves tmp bs n → Leaves tmp bs (m >> n)
>>-Leaves tmp bs m n l d h = and_then-Leaves tmp bs n (m d) l h

and_then-no_change :
    (tmp bs : Bytes) (p : Result Bytes (Unit {0}) × Disk)
    → (p.0 ≡ ok tt → p.1.contents tmp ≡ some bs)
    → (and_then (λ _. no_change) p).0 ≡ ok tt
    → (and_then (λ _. no_change) p).1.contents tmp ≡ some bs
unfolding and_then no_change operation
and_then-no_change tmp bs (ok tt, d) l h =
    ap (λ f. f tmp) (run-ok (λ f. f) _ d.faults d.contents h) ∙ l refl
and_then-no_change tmp bs (err x, d) l h = absurd (ground arith)
and_then-no_change tmp bs (panic, d) l h = absurd (ground arith)

pub no_change-Leaves :
    (tmp bs : Bytes) (m : Io (Unit {0})) → Leaves tmp bs m → Leaves tmp bs (m >> no_change)
no_change-Leaves tmp bs m l d h = and_then-no_change tmp bs (m d) (l d) h

-- A failure before the rename took place leaves the file as it was.
kept :
    (path tmp bs e : Bytes) (d d' : Disk)
    → path ≢ tmp
    → ((k : Bytes) → (k ≡ tmp) ⊎ (d'.contents k ≡ d.contents k))
    → Replaces path tmp bs d (err e) d'
kept path tmp bs e d d' n h = record {
  elsewhere = λ k. inr (h k);
  outcome = elim (h path) [ inl same ↦ absurd (n same) | inr old ↦ inr (e, refl, old) ];
}

swapped :
    (path tmp bs : Bytes) (d : Disk) (es : List (Option Fault)) (f : Contents)
    → path ≢ tmp
    → ((k : Bytes) → (k ≡ tmp) ⊎ (f k ≡ d.contents k))
    → Replaces path tmp bs d
        (ok tt)
        (record { contents = set path (some bs) (set tmp none f); faults = es })
swapped path tmp bs d es f n h =
    let g = set tmp none f in
    record {
      elsewhere = λ k. elim (set_other k path (some bs) g) [
        | inl same ↦ inl same
        | inr e ↦ elim (set_other k tmp none f) [
          | inl same ↦ inr (inl same)
          | inr e' ↦ elim (h k) [ inl same ↦ inr (inl same) | inr e'' ↦ inr (inr (e ∙ e' ∙ e'')) ]
        ]
      ];
      outcome = inl (
        refl,
        set_same path (some bs) g,
        elim (set_other tmp path (some bs) g) [
          | inl same ↦ absurd (n (sym same))
          | inr e ↦ e ∙ set_same tmp none f
        ],
      );
    }

-- The rename of a file that holds the bytes.
run-Replaces :
    (path tmp bs : Bytes) (d : Disk) (es : List (Option Fault)) (f : Contents)
    → path ≢ tmp
    → ((k : Bytes) → (k ≡ tmp) ⊎ (f k ≡ d.contents k))
    → Replaces path tmp bs d
        (run (λ g. set path (some bs) (set tmp none g)) (λ _ g. g) es f).0
        (run (λ g. set path (some bs) (set tmp none g)) (λ _ g. g) es f).1
unfolding run
run-Replaces path tmp bs d [] f n h = swapped path tmp bs d [] f n h
run-Replaces path tmp bs d (none ∷ es) f n h = swapped path tmp bs d es f n h
run-Replaces path tmp bs d (some e ∷ es) f n h = kept path tmp bs e.error d _ n h

rename-Replaces :
    (path tmp bs : Bytes) (d : Disk) (p : Result Bytes (Unit {0}) × Disk)
    → path ≢ tmp
    → p.0 ≢ panic
    → ((k : Bytes) → (k ≡ tmp) ⊎ (p.1.contents k ≡ d.contents k))
    → (p.0 ≡ ok tt → p.1.contents tmp ≡ some bs)
    → Replaces path tmp bs d
        (and_then (λ _. rename tmp path) p).0
        (and_then (λ _. rename tmp path) p).1
unfolding and_then rename if_present operation
rename-Replaces path tmp bs d (ok u, v) n r h l =
    rw (l refl, rename) (run-Replaces path tmp bs d v.faults v.contents n h)
rename-Replaces path tmp bs d (err e, v) n r h l = kept path tmp bs e d v n h
rename-Replaces path tmp bs d (panic, v) n r h l = absurd (r refl)

-- Writing the bytes beside the file and renaming replaces the file.
pub >>-Replaces :
    (path tmp bs : Bytes) (m : Io (Unit {0})) (d : Disk)
    → path ≢ tmp
    → Touches tmp m
    → Leaves tmp bs m
    → Replaces path tmp bs d ((m >> rename tmp path) d).0 ((m >> rename tmp path) d).1
>>-Replaces path tmp bs m d n t l =
    rename-Replaces path tmp bs d (m d) n (t.returns d) (t.elsewhere d) (l d)
