-- ===== src/RemoteHelper/Visits.antt =====
-- What a visit says of a commit, crates/freenet-git/src/bin/git-remote-freenet.rs.
use freenet_git.Prelude.{
  ◌≡◌, refl, ◌⊎◌, inl, inr, Bool, true, false, List, Bytes, arith, Bool-cases,
}
use freenet_git.Outcome.{Result, ok, err, panic}
use freenet_git.RemoteHelper.{
  Git, has, Visit, seen, no_commit, missing, local, visit_object, visit_local, visit_commit, visit,
}

pub data Visited (git : Git) (c : Bytes) (walked : List Bytes) : Visit → Type 0 where
  seen_before : has c walked ≡ true → Visited git c walked seen
  other_object :
      has c walked ≡ false
      → git.commit_exists c ≡ ok false
      → git.any_object_exists c ≡ ok true
      → Visited git c walked no_commit
  absent :
      has c walked ≡ false
      → git.commit_exists c ≡ ok false
      → git.any_object_exists c ≡ ok false
      → Visited git c walked missing
  present :
      (ps : List Bytes)
      → has c walked ≡ false
      → git.commit_exists c ≡ ok true
      → git.git_commit_parents c ≡ ok ps
      → Visited git c walked (local ps)

visit_commit-Visited :
    (git : Git) (c : Bytes) (walked : List Bytes) (v : Visit) (e o : Result Bytes Bool)
    (p : Result Bytes (List Bytes))
    → has c walked ≡ false
    → git.commit_exists c ≡ e
    → git.any_object_exists c ≡ o
    → git.git_commit_parents c ≡ p
    → visit_commit e o p ≡ ok v
    → Visited git c walked v
unfolding visit_commit visit_object visit_local
visit_commit-Visited git c walked v (ok true) o (ok ps) n he ho hp h =
    let same : local ps ≡ v = ground arith in rw (← same) (present ps n he hp)
visit_commit-Visited git c walked v (ok true) o (err x) n he ho hp h = absurd (ground arith)
visit_commit-Visited git c walked v (ok true) o panic n he ho hp h = absurd (ground arith)
visit_commit-Visited git c walked v (ok false) (ok true) p n he ho hp h =
    let same : no_commit ≡ v = ground arith in rw (← same) (other_object n he ho)
visit_commit-Visited git c walked v (ok false) (ok false) p n he ho hp h =
    let same : missing ≡ v = ground arith in rw (← same) (absent n he ho)
visit_commit-Visited git c walked v (ok false) (err x) p n he ho hp h = absurd (ground arith)
visit_commit-Visited git c walked v (ok false) panic p n he ho hp h = absurd (ground arith)
visit_commit-Visited git c walked v (err x) o p n he ho hp h = absurd (ground arith)
visit_commit-Visited git c walked v panic o p n he ho hp h = absurd (ground arith)

pub visit-Visited :
    (git : Git) (c : Bytes) (walked : List Bytes) (v : Visit)
    → visit git c walked ≡ ok v
    → Visited git c walked v
unfolding visit
visit-Visited git c walked v h = elim (Bool-cases (has c walked)) [
  | inl old ↦ let same : seen ≡ v = ground arith in rw (← same) (seen_before old)
  | inr new ↦ visit_commit-Visited git c walked v _ _ _ new refl refl refl (rw new at h)
]

pub Result-cases :
    {A : Type 0} (r : Result Bytes A)
    → ((a : A) × (r ≡ ok a)) ⊎ (((e : Bytes) × (r ≡ err e)) ⊎ (r ≡ panic))
Result-cases (ok a) = inl (a, refl)
Result-cases (err e) = inr (inl (e, refl))
Result-cases panic = inr (inr refl)
