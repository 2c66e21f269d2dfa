-- ===== src/RemoteHelper/Exact.antt =====
-- What the search of the local history finds is what is missing,
-- crates/freenet-git/src/bin/git-remote-freenet.rs.
use freenet_git.Prelude.{
  ℕ, zero, suc, ◌≡◌, ◌↔◌, refl, ◌⊎◌, inl, inr, true, false, some, List, [], ◌∷◌, Bytes, Among,
  arith, Bool-cases,
}
use freenet_git.BTreeMap.Order.{eqb, eqb→eq}
use freenet_git.Outcome.{ok}
use freenet_git.RemoteHelper.{
  Git, has, add, Visit, seen, no_commit, missing, local, visit, Walk, push_new, next, on_visit,
  walk_loop, walk_unresolved_parents,
}
use freenet_git.RemoteHelper.Visits.{
  Visited, seen_before, other_object, absent, present, visit-Visited, Result-cases,
}

-- A commit that git has no object for.
abbrev pub IsMissing : Git → Bytes → Type 0
IsMissing git c = (git.commit_exists c ≡ ok false) × (git.any_object_exists c ≡ ok false)

-- The commits that the wanted ones lead to by way of local commits.
pub data Leads (git : Git) (wanted : List Bytes) : Bytes → Type 0 where
  start : (c : Bytes) → Among c wanted → Leads git wanted c
  parent :
      (c p : Bytes) (ps : List Bytes)
      → Leads git wanted c
      → git.commit_exists c ≡ ok true
      → git.git_commit_parents c ≡ ok ps
      → Among p ps
      → Leads git wanted p

abbrev Covered : Walk → Bytes → Type 0
Covered s p = Among p s.to_visit ⊎ (Among p s.walked ⊎ Among p s.unresolved)

-- A local commit has its parents, and they are all covered.
abbrev ParentsCovered : Git → Walk → Bytes → Type 0
ParentsCovered git s c =
    (git.commit_exists c ≡ ok false)
    ⊎ ((ps : List Bytes) × (git.git_commit_parents c ≡ ok ps)
        × ((p : Bytes) → Among p ps → Covered s p))

record Invariant (git : Git) (wanted : List Bytes) (s : Walk) : Type 0 where
  leads : (c : Bytes) → Among c s.to_visit → Leads git wanted c
  missed : (c : Bytes) → Among c s.unresolved → Leads git wanted c × IsMissing git c
  wanted_covered : (c : Bytes) → Among c wanted → Covered s c
  parents_covered : (c : Bytes) → Among c s.walked → ParentsCovered git s c
  known : (c : Bytes) → Among c s.walked → IsMissing git c → ⊥

has-Among : (c : Bytes) (xs : List Bytes) → has c xs ≡ true → Among c xs
unfolding has
has-Among c [] h = absurd (ground arith)
has-Among c (x ∷ xs) h = elim (Bool-cases (eqb c x)) [
  | inl e ↦ inl (eqb→eq c x e)
  | inr e ↦ inr (has-Among c xs (rw e at h))
]

Among-add : (x c : Bytes) (xs : List Bytes) → Among x (add c xs) → (x ≡ c) ⊎ Among x xs
unfolding add
Among-add x c xs m = elim (Bool-cases (has c xs)) [
  | inl old ↦ inr (rw old at m)
  | inr new ↦ rw new at m
]

add-Among : (x c : Bytes) (xs : List Bytes) → (x ≡ c) ⊎ Among x xs → Among x (add c xs)
unfolding add
add-Among x c xs (inl e) = elim (Bool-cases (has c xs)) [
  | inl old ↦ rw old (rw e (has-Among c xs old))
  | inr new ↦ rw new (inl e)
]
add-Among x c xs (inr m) = elim (Bool-cases (has c xs)) [
  | inl old ↦ rw old m
  | inr new ↦ rw new (inr m)
]

-- What is pushed are parents; what was on the stack stays, and a parent is pushed or was walked.
push_new-Among :
    (x : Bytes) (ps walked stack : List Bytes)
    → Among x (push_new ps walked stack)
    → Among x ps ⊎ Among x stack
unfolding push_new
push_new-Among x [] walked stack m = inr m
push_new-Among x (p ∷ ps) walked stack m = elim (Bool-cases (has p walked)) [
  | inl old ↦ elim (push_new-Among x ps walked stack (rw old at m)) [
    | inl k ↦ inl (inr k)
    | inr k ↦ inr k
  ]
  | inr new ↦ elim (push_new-Among x ps walked (p ∷ stack) (rw new at m)) [
    | inl k ↦ inl (inr k)
    | inr (inl e) ↦ inl (inl e)
    | inr (inr k) ↦ inr k
  ]
]

Among-push_new :
    (x : Bytes) (ps walked stack : List Bytes) → Among x stack → Among x (push_new ps walked stack)
unfolding push_new
Among-push_new x [] walked stack m = m
Among-push_new x (p ∷ ps) walked stack m = elim (Bool-cases (has p walked)) [
  | inl old ↦ rw old (Among-push_new x ps walked stack m)
  | inr new ↦ rw new (Among-push_new x ps walked (p ∷ stack) (inr m))
]

parent-push_new :
    (x : Bytes) (ps walked stack : List Bytes)
    → Among x ps
    → Among x (push_new ps walked stack) ⊎ Among x walked
unfolding push_new
parent-push_new x [] walked stack m = elim m [ ]
parent-push_new x (p ∷ ps) walked stack (inl e) = elim (Bool-cases (has p walked)) [
  | inl old ↦ inr (rw e (has-Among p walked old))
  | inr new ↦ rw new (inl (Among-push_new x ps walked (p ∷ stack) (inl e)))
]
parent-push_new x (p ∷ ps) walked stack (inr m) = elim (Bool-cases (has p walked)) [
  | inl old ↦ rw old (parent-push_new x ps walked stack m)
  | inr new ↦ rw new (parent-push_new x ps walked (p ∷ stack) m)
]

-- A visit keeps all that is covered.
next-Covered :
    (git : Git) (c : Bytes) (v : Visit) (stack walked unresolved : List Bytes) (p : Bytes)
    → Visited git c walked v
    → Covered (record { to_visit = c ∷ stack; walked = walked; unresolved = unresolved }) p
    → Covered (next v c stack walked unresolved) p
unfolding next
next-Covered git c _ stack walked unresolved p (seen_before h) (inl (inl e)) =
    inr (inl (rw e (has-Among c walked h)))
next-Covered git c _ stack walked unresolved p (seen_before h) (inl (inr m)) = inl m
next-Covered git c _ stack walked unresolved p (seen_before h) (inr k) = inr k
next-Covered git c _ stack walked unresolved p (other_object h e o) (inl (inl q)) =
    inr (inl (inl q))
next-Covered git c _ stack walked unresolved p (other_object h e o) (inl (inr m)) = inl m
next-Covered git c _ stack walked unresolved p (other_object h e o) (inr (inl m)) =
    inr (inl (inr m))
next-Covered git c _ stack walked unresolved p (other_object h e o) (inr (inr m)) = inr (inr m)
next-Covered git c _ stack walked unresolved p (absent h e o) (inl (inl q)) =
    inr (inr (add-Among p c unresolved (inl q)))
next-Covered git c _ stack walked unresolved p (absent h e o) (inl (inr m)) = inl m
next-Covered git c _ stack walked unresolved p (absent h e o) (inr (inl m)) = inr (inl m)
next-Covered git c _ stack walked unresolved p (absent h e o) (inr (inr m)) =
    inr (inr (add-Among p c unresolved (inr m)))
next-Covered git c _ stack walked unresolved p (present ps h e q) (inl (inl r)) = inr (inl (inl r))
next-Covered git c _ stack walked unresolved p (present ps h e q) (inl (inr m)) =
    inl (Among-push_new p ps (c ∷ walked) stack m)
next-Covered git c _ stack walked unresolved p (present ps h e q) (inr (inl m)) = inr (inl (inr m))
next-Covered git c _ stack walked unresolved p (present ps h e q) (inr (inr m)) = inr (inr m)

next-ParentsCovered :
    (git : Git) (c : Bytes) (v : Visit) (stack walked unresolved : List Bytes) (x : Bytes)
    → Visited git c walked v
    → ParentsCovered git
        (record { to_visit = c ∷ stack; walked = walked; unresolved = unresolved })
        x
    → ParentsCovered git (next v c stack walked unresolved) x
next-ParentsCovered git c v stack walked unresolved x h (inl e) = inl e
next-ParentsCovered git c v stack walked unresolved x h (inr (ps, e, f)) =
    inr (ps, e, λ p m. next-Covered git c v stack walked unresolved p h (f p m))

next-Invariant :
    (git : Git) (wanted : List Bytes) (c : Bytes) (v : Visit) (stack walked unresolved : List Bytes)
    → Invariant git wanted
        (record { to_visit = c ∷ stack; walked = walked; unresolved = unresolved })
    → Visited git c walked v
    → Invariant git wanted (next v c stack walked unresolved)
unfolding next
next-Invariant git wanted c _ stack walked unresolved i (seen_before h) = record {
  leads = λ x m. i.leads x (inr m);
  missed = i.missed;
  wanted_covered = λ x m.
      next-Covered git c seen stack walked unresolved x (seen_before h) (i.wanted_covered x m);
  parents_covered = λ x m.
      next-ParentsCovered git c seen stack walked unresolved x (seen_before h)
        (i.parents_covered x m);
  known = i.known;
}
next-Invariant git wanted c _ stack walked unresolved i (other_object h e o) =
    let v = other_object h e o in
    record {
      leads = λ x m. i.leads x (inr m);
      missed = i.missed;
      wanted_covered =
          λ x m. next-Covered git c no_commit stack walked unresolved x v (i.wanted_covered x m);
      parents_covered = λ x m. elim m [
        | inl q ↦ inl (rw q e)
        | inr k ↦
            next-ParentsCovered git c no_commit stack walked unresolved x v (i.parents_covered x k)
      ];
      known = λ x m gone. elim m [
        | inl q ↦
            let there : git.any_object_exists x ≡ ok true = rw q o in ground (arith, gone.1, there)
        | inr k ↦ i.known x k gone
      ];
    }
next-Invariant git wanted c _ stack walked unresolved i (absent h e o) =
    let v = absent h e o in
    record {
      leads = λ x m. i.leads x (inr m);
      missed = λ x m. elim (Among-add x c unresolved m) [
        | inl q ↦ rw q (i.leads c (inl refl), (e, o))
        | inr k ↦ i.missed x k
      ];
      wanted_covered =
          λ x m. next-Covered git c missing stack walked unresolved x v (i.wanted_covered x m);
      parents_covered = λ x m.
          next-ParentsCovered git c missing stack walked unresolved x v (i.parents_covered x m);
      known = i.known;
    }
next-Invariant git wanted c _ stack walked unresolved i (present ps h e q) =
    let v = present ps h e q in
    record {
      leads = λ x m. elim (push_new-Among x ps (c ∷ walked) stack m) [
        | inl p ↦ parent c x ps (i.leads c (inl refl)) e q p
        | inr k ↦ i.leads x (inr k)
      ];
      missed = i.missed;
      wanted_covered =
          λ x m. next-Covered git c (local ps) stack walked unresolved x v (i.wanted_covered x m);
      parents_covered = λ x m. elim m [
        | inl r ↦ inr (
          ps,
          rw r q,
          λ p k. elim (parent-push_new p ps (c ∷ walked) stack k) [
            | inl pushed ↦ inl pushed
            | inr old ↦ inr (inl old)
          ],
        )
        | inr k ↦
            next-ParentsCovered git c (local ps) stack walked unresolved x v (i.parents_covered x k)
      ];
      known = λ x m gone. elim m [
        | inl r ↦
            let there : git.commit_exists x ≡ ok true = rw r e in ground (arith, gone.0, there)
        | inr k ↦ i.known x k gone
      ];
    }

-- What the loop ends with: nothing more to visit, and the invariant.
walk_loop-Invariant :
    (git : Git) (wanted : List Bytes) (fuel : ℕ) (stack walked unresolved : List Bytes) (s : Walk)
    → Invariant git wanted (record { to_visit = stack; walked = walked; unresolved = unresolved })
    → walk_loop git fuel stack walked unresolved ≡ some (ok s)
    → Invariant git wanted s × (s.to_visit ≡ [])
unfolding walk_loop on_visit
walk_loop-Invariant git wanted fuel [] walked unresolved s i h =
    let same : record { to_visit = []; walked = walked; unresolved = unresolved } ≡ s = cc h in
    rw (← same) (i, refl)
walk_loop-Invariant git wanted zero (c ∷ stack) walked unresolved s i h = absurd (ground arith)
walk_loop-Invariant git wanted (suc fuel) (c ∷ stack) walked unresolved s i h =
    elim (Result-cases (visit git c walked)) [
      | inr (inr e) ↦ absurd (ground arith)
      | inr (inl (x, e)) ↦ absurd (ground arith)
      | inl (v, e) ↦
          let t = next v c stack walked unresolved in
          let visited = visit-Visited git c walked v e in
          walk_loop-Invariant git wanted fuel t.to_visit t.walked t.unresolved s
            (next-Invariant git wanted c v stack walked unresolved i visited) (rw e at h)
    ]

Covered_at_end :
    (s : Walk) (p : Bytes) → s.to_visit ≡ [] → Covered s p → Among p s.walked ⊎ Among p s.unresolved
Covered_at_end s p e (inl m) = absurd (rw e at m)
Covered_at_end s p e (inr k) = k

-- At the end, what the wanted commits lead to was walked or is unresolved.
Leads-found :
    (git : Git) (wanted : List Bytes) (s : Walk) (c : Bytes)
    → Invariant git wanted s
    → s.to_visit ≡ []
    → Leads git wanted c
    → Among c s.walked ⊎ Among c s.unresolved
Leads-found git wanted s _ i e (start c m) = Covered_at_end s c e (i.wanted_covered c m)
Leads-found git wanted s _ i e (parent c p ps l ex q m) = elim (Leads-found git wanted s c i e l) [
  | inr lost ↦ absurd (ground (arith, (i.missed c lost).1.0, ex))
  | inl walked ↦ elim (i.parents_covered c walked) [
    | inl gone ↦ absurd (ground (arith, gone, ex))
    | inr (qs, r, f) ↦
        let same : ps ≡ qs = ground (arith, q, r) in Covered_at_end s p e (f p (rw (← same) m))
  ]
]

-- If a search that starts with nothing walked returns, then the commits that it reports as
-- unresolved are exactly those that git has no object for and that the wanted commits lead to by way
-- of local commits.
pub walk_unresolved_parents-Leads :
    (git : Git) (fuel : ℕ) (wanted : List Bytes) (s : Walk) (c : Bytes)
    → walk_unresolved_parents git fuel wanted [] ≡ some (ok s)
    → Among c s.unresolved ↔ (Leads git wanted c × IsMissing git c)
unfolding walk_unresolved_parents
walk_unresolved_parents-Leads git fuel wanted s c h =
    let begin : Walk = record { to_visit = wanted; walked = []; unresolved = [] } in
    let i0 : Invariant git wanted begin = record {
      leads = λ x m. start x m;
      missed = λ x m. elim m [ ];
      wanted_covered = λ x m. inl m;
      parents_covered = λ x m. elim m [ ];
      known = λ x m gone. m;
    } in
    let (i, e) = walk_loop-Invariant git wanted fuel wanted [] [] s i0 h in
    (
      i.missed c,
      λ found. elim (Leads-found git wanted s c i e found.0) [
        | inl walked ↦ absurd (i.known c walked found.1)
        | inr m ↦ m
      ],
    )
