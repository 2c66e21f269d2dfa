-- ===== src/Chunked/Split.antt =====
-- `split_pack` cuts a pack into full chunks and a last one, and loses nothing.
use freenet_git.Prelude.{
  ℕ, zero, suc, ◌+◌, ◌-◌, ◌*◌, ◌≤◌, ◌<◌, ◌≡◌, refl, arith, Bytes, List, [], ◌∷◌, ◌++◌,
}
use freenet_git.Prelude.{
  ◌≢◌, Bool-cases, inl, inr, ltb→lt, ltb→ge, length, take, drop, map, length-take, length-drop,
  take-append-drop, length-append, ltb,
}
use freenet_git.Chunked.{sum, chunks}

abbrev pub concat : List Bytes → Bytes
concat [] = []
concat (c ∷ cs) = c ++ concat cs

-- Every byte is in a chunk, once and in order.
pub concat-chunks :
    (fuel size : ℕ) (pack : Bytes)
    → 0 < size
    → length pack ≤ fuel
    → concat (chunks fuel size pack) ≡ pack
unfolding chunks
concat-chunks fuel size [] hs hf = refl
concat-chunks zero size (b ∷ bs) hs hf = absurd (omega arith)
concat-chunks (suc fuel) size (b ∷ bs) hs hf =
    let rest = drop size (b ∷ bs) in
    rw (concat-chunks fuel size rest hs (omega (arith, length-drop size (b ∷ bs))))
      (take-append-drop size (b ∷ bs))

-- All chunks but the last are full, and none is empty or too long.
abbrev pub Sized : ℕ → List Bytes → Type 0
Sized size [] = Unit
Sized size (c ∷ []) = (0 < length c) × (length c ≤ size)
Sized size (c ∷ d ∷ ds) = (length c ≡ size) × Sized size (d ∷ ds)

-- A chunk in front of the others: full, unless it is the last.
Sized-cons :
    (size : ℕ) (c : Bytes) (cs : List Bytes)
    → 0 < length c
    → length c ≤ size
    → (cs ≢ [] → length c ≡ size)
    → Sized size cs
    → Sized size (c ∷ cs)
Sized-cons size c [] lo hi full s = (lo, hi)
Sized-cons size c (d ∷ ds) lo hi full s = (full (λ e. cc), s)

chunks-nil : (fuel size : ℕ) (pack : Bytes) → pack ≡ [] → chunks fuel size pack ≡ []
unfolding chunks
chunks-nil fuel size [] e = refl
chunks-nil fuel size (b ∷ bs) e = absurd (ground arith)

-- What is left behind a chunk that is not full is nothing.
rest_nil : (size : ℕ) (pack : Bytes) → length pack ≤ size → drop size pack ≡ []
rest_nil zero [] h = refl
rest_nil zero (b ∷ bs) h = absurd (omega arith)
rest_nil (suc size) [] h = refl
rest_nil (suc size) (b ∷ bs) h = rest_nil size bs (omega arith)

full_chunk :
    (fuel size : ℕ) (pack : Bytes)
    → chunks fuel size (drop size pack) ≢ []
    → length (take size pack) ≡ size
full_chunk fuel size pack n = elim (Bool-cases (ltb size (length pack))) [
  | inl more ↦ omega (arith, length-take size pack, ltb→lt size (length pack) more)
  | inr less ↦ absurd (
      n (
        chunks-nil fuel size (drop size pack)
          (rest_nil size pack (ltb→ge size (length pack) less))))
]

pub chunks-Sized :
    (fuel size : ℕ) (pack : Bytes)
    → 0 < size
    → length pack ≤ fuel
    → Sized size (chunks fuel size pack)
unfolding chunks
chunks-Sized fuel size [] hs hf = tt
chunks-Sized zero size (b ∷ bs) hs hf = absurd (omega arith)
chunks-Sized (suc fuel) size (b ∷ bs) hs hf =
    let pack = b ∷ bs in
    let ih = chunks-Sized fuel size (drop size pack) hs (omega (arith, length-drop size pack)) in
    Sized-cons size (take size pack) (chunks fuel size (drop size pack))
      (omega (arith, length-take size pack)) (omega (arith, length-take size pack))
      (full_chunk fuel size pack) ih

pub chunks_nonempty :
    (fuel size : ℕ) (pack : Bytes)
    → 0 < length pack
    → length pack ≤ fuel
    → 0 < length (chunks fuel size pack)
unfolding chunks
chunks_nonempty fuel size [] h hf = absurd (omega arith)
chunks_nonempty zero size (b ∷ bs) h hf = absurd (omega arith)
chunks_nonempty (suc fuel) size (b ∷ bs) h hf = omega arith

-- The sizes of sized chunks add up to more than all full chunks but one, and at most all full.
pub Sized-sum :
    (size : ℕ) (cs : List Bytes)
    → Sized size cs
    → 0 < length cs
    → (size * (length cs - 1) < sum (map length cs)) × (sum (map length cs) ≤ size * length cs)
Sized-sum size [] s h = absurd (omega arith)
Sized-sum size (c ∷ []) s h = omega arith
Sized-sum size (c ∷ d ∷ ds) s h = grind (arith, Sized-sum size (d ∷ ds) s.1 (omega arith))

pub sum-length-concat : (cs : List Bytes) → sum (map length cs) ≡ length (concat cs)
sum-length-concat [] = refl
sum-length-concat (c ∷ cs) = omega (arith, sum-length-concat cs, length-append c (concat cs))

-- The length of the `i`-th chunk.
abbrev pub nth_length : List Bytes → ℕ → ℕ
nth_length [] i = 0
nth_length (c ∷ cs) zero = length c
nth_length (c ∷ cs) (suc i) = nth_length cs i

pub nth_length_full :
    (size : ℕ) (cs : List Bytes) (i : ℕ)
    → Sized size cs
    → i + 1 < length cs
    → nth_length cs i ≡ size
nth_length_full size [] i s h = absurd (omega arith)
nth_length_full size (c ∷ []) i s h = absurd (omega arith)
nth_length_full size (c ∷ d ∷ ds) zero s h = s.0
nth_length_full size (c ∷ d ∷ ds) (suc i) s h = nth_length_full size (d ∷ ds) i s.1 (omega arith)

pub nth_length_last :
    (size : ℕ) (cs : List Bytes) (i : ℕ)
    → Sized size cs
    → suc i ≡ length cs
    → nth_length cs i + size * i ≡ sum (map length cs)
nth_length_last size [] i s h = absurd (omega arith)
nth_length_last size (c ∷ []) zero s h = omega arith
nth_length_last size (c ∷ []) (suc i) s h = absurd (omega arith)
nth_length_last size (c ∷ d ∷ ds) zero s h = absurd (omega arith)
nth_length_last size (c ∷ d ∷ ds) (suc i) s h =
    omega (arith, nth_length_last size (d ∷ ds) i s.1 (omega arith))
