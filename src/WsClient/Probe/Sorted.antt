-- ===== src/WsClient/Probe/Sorted.antt =====
-- The order in which the retired generations are probed, crates/freenet-git/src/wsclient.rs.
use freenet_git.Prelude.{
  ℕ, ◌+◌, ◌≤◌, ◌≡◌, refl, sym, ◌∙◌, ◌⊎◌, inl, inr, List, [], ◌∷◌, ap, ◌++◌, Bytes, All, Among,
  arith, Bool-cases, ltb, ltb→lt, ltb→ge,
}
use freenet_git.Crypto.{Crypto}
use freenet_git.WsClient.Probe.{
  ContractLineageEntry, legacy_instance_id, Candidate, candidates_from, insert_candidate,
  newest_first,
}

-- An entry at an index that counts from `n`.
abbrev pub EntryAt : ℕ → ℕ → ContractLineageEntry → List ContractLineageEntry → Type 0
EntryAt n i e [] = ⊥
EntryAt n i e (x ∷ xs) = ((i ≡ n) × (e ≡ x)) ⊎ EntryAt (n + 1) i e xs

-- No entry is newer than one before it.
abbrev pub NewestFirst : List Candidate → Type 0
NewestFirst [] = Unit
NewestFirst (x ∷ xs) = All (λ y. y.generation ≤ x.generation) xs × NewestFirst xs

insert_candidate-All :
    (P : Candidate → Type 0) (x : Candidate) (ys : List Candidate)
    → P x
    → All P ys
    → All P (insert_candidate x ys)
unfolding insert_candidate
insert_candidate-All P x [] p ps = (p, tt)
insert_candidate-All P x (y ∷ ys) p ps = elim (Bool-cases (ltb x.generation y.generation)) [
  | inl older ↦ rw older (ps.0, insert_candidate-All P x ys p ps.1)
  | inr newer ↦ rw newer (p, ps)
]

older_than :
    (m n : ℕ) (ys : List Candidate)
    → n ≤ m
    → All (λ y. y.generation ≤ n) ys
    → All (λ y. y.generation ≤ m) ys
older_than m n [] h ps = tt
older_than m n (y ∷ ys) h ps = (omega (arith, ps.0), older_than m n ys h ps.1)

insert_candidate-NewestFirst :
    (x : Candidate) (ys : List Candidate) → NewestFirst ys → NewestFirst (insert_candidate x ys)
unfolding insert_candidate
insert_candidate-NewestFirst x [] s = (tt, tt)
insert_candidate-NewestFirst x (y ∷ ys) s = elim (Bool-cases (ltb x.generation y.generation)) [
  | inl older ↦ rw older (
    insert_candidate-All (λ z. z.generation ≤ y.generation) x ys
        (omega (arith, ltb→lt x.generation y.generation older)) s.0,
    insert_candidate-NewestFirst x ys s.1,
  )
  | inr newer ↦
      let le = ltb→ge x.generation y.generation newer in
      rw newer ((le, older_than x.generation y.generation ys le s.0), s)
]

pub newest_first-NewestFirst : (xs : List Candidate) → NewestFirst (newest_first xs)
unfolding newest_first
newest_first-NewestFirst [] = tt
newest_first-NewestFirst (x ∷ xs) =
    insert_candidate-NewestFirst x (newest_first xs) (newest_first-NewestFirst xs)

-- Sorting keeps the entries.
insert_candidate-Among :
    (a x : Candidate) (ys : List Candidate) → Among a (insert_candidate x ys) → (a ≡ x) ⊎ Among a ys
unfolding insert_candidate
insert_candidate-Among a x [] h = h
insert_candidate-Among a x (y ∷ ys) h = elim (Bool-cases (ltb x.generation y.generation)) [
  | inl older ↦ behind (insert_candidate-Among a x ys) (rw older at h)
  | inr newer ↦ rw newer at h
]
  where
    behind :
        (Among a (insert_candidate x ys) → (a ≡ x) ⊎ Among a ys)
        → Among a (y ∷ insert_candidate x ys)
        → (a ≡ x) ⊎ Among a (y ∷ ys)
    behind ih (inl e) = inr (inl e)
    behind ih (inr m) = elim (ih m) [ inl e ↦ inl e | inr k ↦ inr (inr k) ]

Among-insert_candidate :
    (a x : Candidate) (ys : List Candidate) → (a ≡ x) ⊎ Among a ys → Among a (insert_candidate x ys)
unfolding insert_candidate
Among-insert_candidate a x [] h = h
Among-insert_candidate a x (y ∷ ys) h = elim (Bool-cases (ltb x.generation y.generation)) [
  | inl older ↦ rw older (behind (Among-insert_candidate a x ys) h)
  | inr newer ↦ rw newer h
]
  where
    behind :
        ((a ≡ x) ⊎ Among a ys → Among a (insert_candidate x ys))
        → (a ≡ x) ⊎ Among a (y ∷ ys)
        → Among a (y ∷ insert_candidate x ys)
    behind ih (inl e) = inr (ih (inl e))
    behind ih (inr (inl e)) = inl e
    behind ih (inr (inr m)) = inr (ih (inr m))

pub newest_first-Among :
    (a : Candidate) (xs : List Candidate) → Among a (newest_first xs) → Among a xs
unfolding newest_first
newest_first-Among a [] h = h
newest_first-Among a (x ∷ xs) h = elim (insert_candidate-Among a x (newest_first xs) h) [
  | inl e ↦ inl e
  | inr m ↦ inr (newest_first-Among a xs m)
]

pub Among-newest_first :
    (a : Candidate) (xs : List Candidate) → Among a xs → Among a (newest_first xs)
unfolding newest_first
Among-newest_first a [] h = elim h [ ]
Among-newest_first a (x ∷ xs) (inl e) = Among-insert_candidate a x (newest_first xs) (inl e)
Among-newest_first a (x ∷ xs) (inr m) =
    Among-insert_candidate a x (newest_first xs) (inr (Among-newest_first a xs m))

-- The candidate of an entry.
abbrev pub candidate : Crypto → Bytes → ℕ → ContractLineageEntry → Candidate
candidate c params_bytes i e = record {
  index = i;
  id = legacy_instance_id c e params_bytes;
  generation = e.generation;
}

module _ (c : Crypto) (params_bytes : Bytes) where
  pub candidates_from-Among :
      (n i : ℕ) (e : ContractLineageEntry) (lineage : List ContractLineageEntry)
      → EntryAt n i e lineage
      → Among (candidate c params_bytes i e) (candidates_from c params_bytes n lineage)
  unfolding candidates_from
  candidates_from-Among n i e [] h = elim h [ ]
  candidates_from-Among n i e (x ∷ xs) (inl (p, q)) = inl (rw (p, q))
  candidates_from-Among n i e (x ∷ xs) (inr m) = inr (candidates_from-Among (n + 1) i e xs m)

  pub candidates_from-EntryAt :
      (n : ℕ) (a : Candidate) (lineage : List ContractLineageEntry)
      → Among a (candidates_from c params_bytes n lineage)
      → (e : ContractLineageEntry) × EntryAt n a.index e lineage
        × (a ≡ candidate c params_bytes a.index e)
  unfolding candidates_from
  candidates_from-EntryAt n a [] h = elim h [ ]
  candidates_from-EntryAt n a (x ∷ xs) (inl p) =
      let i : a.index ≡ n = ap (λ b. b.index) p in
      (x, inl (i, refl), p ∙ ap (λ k. candidate c params_bytes k x) (sym i))
  candidates_from-EntryAt n a (x ∷ xs) (inr m) =
      let (e, at, q) = candidates_from-EntryAt (n + 1) a xs m in (e, inr at, q)

pub Among-split :
    (a x : Candidate) (newer older : List Candidate)
    → Among a (newer ++ x ∷ older)
    → Among a newer ⊎ ((a ≡ x) ⊎ Among a older)
Among-split a x [] older h = inr h
Among-split a x (y ∷ newer) older (inl e) = inl (inl e)
Among-split a x (y ∷ newer) older (inr m) = elim (Among-split a x newer older m) [
  | inl k ↦ inl (inr k)
  | inr k ↦ inr k
]

pub NewestFirst-older :
    (x : Candidate) (newer older : List Candidate)
    → NewestFirst (newer ++ x ∷ older)
    → All (λ y. y.generation ≤ x.generation) older
NewestFirst-older x [] older s = s.0
NewestFirst-older x (y ∷ newer) older s = NewestFirst-older x newer older s.1
