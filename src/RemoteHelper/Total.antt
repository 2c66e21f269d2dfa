-- ===== src/RemoteHelper/Total.antt =====
-- The search of the local history ends, crates/freenet-git/src/bin/git-remote-freenet.rs.
use freenet_git.Prelude.{
  ℕ, zero, suc, ◌+◌, ◌≤◌, ◌≡◌, refl, ap, inl, inr, true, false, some, List, [], ◌∷◌, Bytes, length,
  arith, Bool-cases, Among, if◌then◌else◌,
}
use freenet_git.BTreeMap.Order.{eqb, eqb_refl}
use freenet_git.Outcome.{Result, ok, err, panic}
use freenet_git.RemoteHelper.{
  Git, has, Visit, visit, Walk, push_new, next, on_visit, walk_loop, walk_unresolved_parents,
}
use freenet_git.RemoteHelper.Visits.{
  Visited, seen_before, other_object, absent, present, visit-Visited, Result-cases,
}

-- The number of a commit's parents.
abbrev pub count_parents : Result Bytes (List Bytes) → ℕ
count_parents (ok ps) = length ps
count_parents (err e) = 0
count_parents panic = 0

-- The parents of the commits of a list that were not walked.
abbrev pub left : Git → List Bytes → List Bytes → ℕ
left git walked [] = 0
left git walked (c ∷ cs) =
    if has c walked
    then left git walked cs
    else count_parents (git.git_commit_parents c) + left git walked cs

left-le-left :
    (git : Git) (c : Bytes) (walked cs : List Bytes) → left git (c ∷ walked) cs ≤ left git walked cs
unfolding has
left-le-left git c walked [] = omega arith
left-le-left git c walked (x ∷ cs) = ground (arith, left-le-left git c walked cs)

left_drop :
    (git : Git) (c : Bytes) (walked cs : List Bytes)
    → Among c cs
    → has c walked ≡ false
    → left git (c ∷ walked) cs + count_parents (git.git_commit_parents c) ≤ left git walked cs
unfolding has
left_drop git c walked [] m h = elim m [ ]
left_drop git c walked (x ∷ cs) (inl e) h =
    let same : eqb x c ≡ true = rw e (eqb_refl x) in
    let new : has x walked ≡ false = rw (← e) h in
    let count = ap (λ y. count_parents (git.git_commit_parents y)) e in
    ground (arith, left-le-left git c walked cs, same, new, count)
left_drop git c walked (x ∷ cs) (inr m) h = ground (arith, left_drop git c walked cs m h)

length-push_new :
    (ps walked stack : List Bytes) → length (push_new ps walked stack) ≤ length ps + length stack
unfolding push_new
length-push_new [] walked stack = omega arith
length-push_new (p ∷ ps) walked stack = elim (Bool-cases (has p walked)) [
  | inl old ↦ rw old (omega (arith, length-push_new ps walked stack))
  | inr new ↦ rw new (omega (arith, length-push_new ps walked (p ∷ stack)))
]

-- A visit pushes at most what the commit no longer has to push.
next_bound :
    (git : Git) (c : Bytes) (v : Visit) (stack walked unresolved locals : List Bytes)
    → ((x : Bytes) → git.commit_exists x ≡ ok true → Among x locals)
    → Visited git c walked v
    → length (next v c stack walked unresolved).to_visit
        + left git (next v c stack walked unresolved).walked locals
      ≤ length stack + left git walked locals
unfolding next
next_bound git c _ stack walked unresolved locals all (seen_before h) = omega arith
next_bound git c _ stack walked unresolved locals all (other_object h e o) =
    omega (arith, left-le-left git c walked locals)
next_bound git c _ stack walked unresolved locals all (absent h e o) = omega arith
next_bound git c _ stack walked unresolved locals all (present ps h e p) = omega (
  arith,
  length-push_new ps (c ∷ walked) stack,
  left_drop git c walked locals (all c e) h,
  ap count_parents p,
)

-- For a repository whose commits are all in a list: the search returns a result, or the error of a
-- question to git, whenever its fuel is at least the number of wanted commits and of the parents of
-- the listed commits that were not walked before.
pub walk_unresolved_parents_total :
    (git : Git) (fuel : ℕ) (wanted walked locals : List Bytes)
    → ((x : Bytes) → git.commit_exists x ≡ ok true → Among x locals)
    → length wanted + left git walked locals ≤ fuel
    → (r : Result Bytes Walk) × (walk_unresolved_parents git fuel wanted walked ≡ some r)
unfolding walk_unresolved_parents walk_loop on_visit
walk_unresolved_parents_total git fuel wanted walked locals all h = go fuel wanted walked [] h
  where
    go :
        (fuel : ℕ) (stack walked unresolved : List Bytes)
        → length stack + left git walked locals ≤ fuel
        → (r : Result Bytes Walk) × (walk_loop git fuel stack walked unresolved ≡ some r)
    go fuel [] walked unresolved h = (_, refl)
    go zero (c ∷ stack) walked unresolved h = absurd (omega arith)
    go (suc fuel) (c ∷ stack) walked unresolved h = elim (Result-cases (visit git c walked)) [
      | inr (inr e) ↦ (panic, rw e)
      | inr (inl (x, e)) ↦ (err x, rw e)
      | inl (v, e) ↦
          let s = next v c stack walked unresolved in
          let (r, rest) = go fuel s.to_visit s.walked s.unresolved (
            omega (
              arith,
              next_bound git c v stack walked unresolved locals all
                  (visit-Visited git c walked v e),
            )) in
          (r, rw e rest)
    ]
