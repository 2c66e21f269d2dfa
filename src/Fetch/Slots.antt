-- ===== src/Fetch/Slots.antt =====
-- The chunks come in any order, and are put together in the order of the manifest.
use freenet_git.Prelude.{
  ℕ, zero, suc, ◌+◌, ◌<◌, ◌≡◌, refl, sym, ap, ap₂, ◌∙◌, List, [], ◌∷◌, ◌++◌, Bytes, length,
  replicate, map, All, Option, none, some, ◌==◌, if◌then◌else◌, ◌⊎◌, inl, inr, arith,
}
use mathlib.Core.List.{append_assoc, append-nil}
use freenet_git.Outcome.{ok, err, ◌>>=◌}
use freenet_git.Chunked.Split.{concat}
use freenet_git.Fetch.{
  FetchError, assembled_length, set_slot, drain, collect_chunks_into_slots, assemble_from,
  assemble_chunks,
}

-- Each slot is free or holds its chunk.
abbrev pub Agrees : List Bytes → List (Option Bytes) → Type 0
Agrees [] [] = Unit
Agrees (c ∷ cs) (none ∷ ss) = Agrees cs ss
Agrees (c ∷ cs) (some x ∷ ss) = (x ≡ c) × Agrees cs ss
Agrees cs ss = ⊥

abbrev pub IsFilled : ℕ → List (Option Bytes) → Type 0
IsFilled zero (some x ∷ ss) = Unit
IsFilled (suc j) (s ∷ ss) = IsFilled j ss
IsFilled j ss = ⊥

-- A completion is that of the chunk with its index.
abbrev pub IsChunk : List Bytes → ℕ × Bytes → Type 0
IsChunk [] p = ⊥
IsChunk (c ∷ cs) (zero, x) = x ≡ c
IsChunk (c ∷ cs) (suc i, x) = IsChunk cs (i, x)

-- The chunk of this index completes.
abbrev pub Completes : ℕ → List (ℕ × Bytes) → Type 0
Completes i [] = ⊥
Completes i (p ∷ ps) = (p.0 ≡ i) ⊎ Completes i ps

kept_head :
    (x : Bytes) (s : Option Bytes) (ss : List (Option Bytes)) (j : ℕ)
    → IsFilled j (s ∷ ss)
    → IsFilled j (some x ∷ ss)
kept_head x s ss zero f = tt
kept_head x s ss (suc j) f = f

kept_tail :
    (s : Option Bytes) (ss ts : List (Option Bytes))
    → ((j : ℕ) → IsFilled j ss → IsFilled j ts)
    → (j : ℕ) → IsFilled j (s ∷ ss)
    → IsFilled j (s ∷ ts)
kept_tail none ss ts k zero f = f
kept_tail (some x) ss ts k zero f = f
kept_tail s ss ts k (suc j) f = k j f

set_slot-Agrees :
    (cs : List Bytes) (ss : List (Option Bytes)) (i : ℕ) (x : Bytes)
    → Agrees cs ss
    → IsChunk cs (i, x)
    → (ts : List (Option Bytes)) × (set_slot i x ss ≡ some ts)
      × Agrees cs ts
      × IsFilled i ts
      × ((j : ℕ) → IsFilled j ss → IsFilled j ts)
unfolding set_slot
set_slot-Agrees (c ∷ cs) (none ∷ ss) zero x a h =
    (some x ∷ ss, refl, (h, a), tt, kept_head x none ss)
set_slot-Agrees (c ∷ cs) (some y ∷ ss) zero x a h =
    (some x ∷ ss, refl, (h, a.1), tt, kept_head x (some y) ss)
set_slot-Agrees (c ∷ cs) (none ∷ ss) (suc i) x a h =
    let (ts, e, b, f, k) = set_slot-Agrees cs ss i x a h in
    (none ∷ ts, rw e refl, b, f, kept_tail none ss ts k)
set_slot-Agrees (c ∷ cs) (some y ∷ ss) (suc i) x a h =
    let (ts, e, b, f, k) = set_slot-Agrees cs ss i x a.1 h in
    (some y ∷ ts, rw e refl, (a.0, b), f, kept_tail (some y) ss ts k)
set_slot-Agrees [] ss i x a h = absurd h
set_slot-Agrees (c ∷ cs) [] i x a h = absurd a

Agrees-full :
    (cs : List Bytes) (ss : List (Option Bytes))
    → Agrees cs ss
    → ((j : ℕ) → j < length cs → IsFilled j ss)
    → ss ≡ map some cs
Agrees-full [] [] a h = refl
Agrees-full (c ∷ cs) (some x ∷ ss) a h =
    ap₂ ◌∷◌ (ap some a.0) (Agrees-full cs ss a.1 (λ j l. h (suc j) (omega arith)))
Agrees-full (c ∷ cs) (none ∷ ss) a h = absurd (h 0 (omega arith))
Agrees-full [] (s ∷ ss) a h = absurd a
Agrees-full (c ∷ cs) [] a h = absurd a

IsFilled-before :
    (j : ℕ) (ss : List (Option Bytes)) → IsFilled j ss ⊎ Completes j [] → IsFilled j ss
IsFilled-before j ss (inl f) = f
IsFilled-before j ss (inr c) = absurd c

IsFilled-or_later :
    (j i : ℕ) (ss ts : List (Option Bytes)) (x : Bytes) (done : List (ℕ × Bytes))
    → ((k : ℕ) → IsFilled k ss → IsFilled k ts)
    → IsFilled i ts
    → IsFilled j ss ⊎ Completes j ((i, x) ∷ done)
    → IsFilled j ts ⊎ Completes j done
IsFilled-or_later j i ss ts x done k f (inl g) = inl (k j g)
IsFilled-or_later j i ss ts x done k f (inr (inl e)) = inl (rw (sym e) f)
IsFilled-or_later j i ss ts x done k f (inr (inr c)) = inr c

drain-Agrees :
    {E : Type 0} (cs : List Bytes) (done : List (ℕ × Bytes)) (ss : List (Option Bytes))
    → Agrees cs ss
    → All (IsChunk cs) done
    → (ts : List (Option Bytes)) × (drain {E = E} (map ok done) ss ≡ ok ts)
      × Agrees cs ts
      × ((j : ℕ) → IsFilled j ss ⊎ Completes j done → IsFilled j ts)
unfolding drain
drain-Agrees cs [] ss a h = (ss, refl, a, λ j f. IsFilled-before j ss f)
drain-Agrees {E = E} cs ((i, x) ∷ done) ss a h =
    let (ts, e, b, f, k) = set_slot-Agrees cs ss i x a h.0 in
    let (us, d, g, l) = drain-Agrees {E = E} cs done ts b h.1 in
    (us, rw e d, g, λ j q. l j (IsFilled-or_later j i ss ts x done k f q))

no_slots : (cs : List Bytes) → Agrees cs (replicate (length cs) none)
no_slots [] = tt
no_slots (c ∷ cs) = no_slots cs

assemble_from-concat :
    (i : ℕ) (cs : List Bytes) (out : Bytes)
    → assemble_from i (map some cs) out ≡ ok (out ++ concat cs)
unfolding assemble_from
assemble_from-concat i [] out = ap ok (sym (append-nil out))
assemble_from-concat i (c ∷ cs) out =
    assemble_from-concat (i + 1) cs (out ++ c) ∙ ap ok (append_assoc out c (concat cs))

pub collect_chunks_into_slots-ok :
    {E : Type 0} (cs : List Bytes) (done : List (ℕ × Bytes))
    → All (IsChunk cs) done
    → ((j : ℕ) → j < length cs → Completes j done)
    → collect_chunks_into_slots {E = E} (map ok done) (length cs) ≡ ok (map some cs)
unfolding collect_chunks_into_slots
collect_chunks_into_slots-ok {E = E} cs done h all =
    let (ts, e, a, f) = drain-Agrees {E = E} cs done (replicate (length cs) none) (no_slots cs) h in
    e ∙ ap ok (Agrees-full cs ts a (λ j l. f j (inr (all j l))))

pub assemble_chunks-concat :
    (cs : List Bytes) (total : ℕ)
    → assemble_chunks (map some cs) total ≡ (
        if length (concat cs) == total
        then ok (concat cs)
        else err (assembled_length (length (concat cs)) total))
unfolding assemble_chunks
assemble_chunks-concat cs total = rw (assemble_from-concat 0 cs []) refl

-- If every completion is that of the chunk with its index, and each chunk completes at least once,
-- then, in whatever order they do, the result is the chunks one behind the other in the order of the
-- manifest, unless their total length is not the one expected, which is the error.
pub assemble_chunks-collect_chunks_into_slots :
    (cs : List Bytes) (done : List (ℕ × Bytes)) (total : ℕ)
    → All (IsChunk cs) done
    → ((j : ℕ) → j < length cs → Completes j done)
    → (collect_chunks_into_slots (map ok done) (length cs) >>= λ received.
        assemble_chunks received total)
      ≡ (if length (concat cs) == total
          then ok (concat cs)
          else err (assembled_length (length (concat cs)) total))
assemble_chunks-collect_chunks_into_slots cs done total h all =
    rw (collect_chunks_into_slots-ok {E = FetchError} cs done h all)
      (assemble_chunks-concat cs total)
