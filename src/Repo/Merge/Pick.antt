-- ===== src/Repo/Merge/Pick.antt =====
-- The picks of a merge choose the least entry of a total order on (sequence number, signature).
use freenet_git.Prelude.{ℕ, ◌≤◌, ◌≡◌, Option, none, some, Bytes, Bool, true, false, arith}
use freenet_git.Prelude.{if◌then◌else◌, Bool-cases, inl, inr}
use freenet_git.BTreeMap.Order.{cmp_refl, eq_of_cmp, lt_of_gt, gt_of_lt, lt_trans}
use freenet_git.Repo.Merge.{pick_higher_seq}

pub pick_higher_seq_refl : (s : ℕ) (g : Bytes) → pick_higher_seq s g s g ≡ true
unfolding pick_higher_seq
pick_higher_seq_refl s g = ground (arith, cmp_refl g)

pub pick_higher_seq_total :
    (s t : ℕ) (g h : Bytes) → pick_higher_seq s g t h ≡ false → pick_higher_seq t h s g ≡ true
unfolding pick_higher_seq
pick_higher_seq_total s t g h e = ground (arith, lt_of_gt g h)

pub pick_higher_seq_antisymm :
    (s t : ℕ) (g h : Bytes)
    → pick_higher_seq s g t h ≡ true
    → pick_higher_seq t h s g ≡ true
    → (s ≡ t) × (g ≡ h)
unfolding pick_higher_seq
pick_higher_seq_antisymm s t g h e f = ground (arith, eq_of_cmp g h, gt_of_lt g h)

pub pick_higher_seq_trans :
    (s t u : ℕ) (g h k : Bytes)
    → pick_higher_seq s g t h ≡ true
    → pick_higher_seq t h u k ≡ true
    → pick_higher_seq s g u k ≡ true
unfolding pick_higher_seq
pick_higher_seq_trans s t u g h k e f = ground (arith, eq_of_cmp g h, eq_of_cmp h k, lt_trans g h k)

pub pick_higher_seq-le : (s t : ℕ) (g h : Bytes) → pick_higher_seq s g t h ≡ true → t ≤ s
unfolding pick_higher_seq
pick_higher_seq-le s t g h e = ground arith

-- The three picks, over any type with a sequence number and a signature.
module _ {V : Type 0} (seq : V → ℕ) (sig : V → Bytes) where
  abbrev pub wins : V → V → Bool
  wins a b = pick_higher_seq (seq a) (sig a) (seq b) (sig b)

  abbrev pub choose : V → V → V
  choose a b = if wins a b then a else b

  pub choose_self : (a : V) → choose a a ≡ a
  choose_self a = rw (pick_higher_seq_refl (seq a) (sig a))

  pub choose_assoc : (a b c : V) → choose (choose a b) c ≡ choose a (choose b c)
  choose_assoc a b c = ground (
    arith,
    pick_higher_seq_trans (seq a) (seq b) (seq c) (sig a) (sig b) (sig c),
    pick_higher_seq_trans (seq b) (seq a) (seq c) (sig b) (sig a) (sig c),
    pick_higher_seq_trans (seq b) (seq c) (seq a) (sig b) (sig c) (sig a),
    pick_higher_seq_trans (seq c) (seq b) (seq a) (sig c) (sig b) (sig a),
    pick_higher_seq_trans (seq a) (seq c) (seq b) (sig a) (sig c) (sig b),
    pick_higher_seq_total (seq a) (seq b) (sig a) (sig b),
    pick_higher_seq_total (seq b) (seq c) (sig b) (sig c),
    pick_higher_seq_total (seq a) (seq c) (sig a) (sig c),
  )

  -- Two entries that no number or signature tells apart must be one for the order not to matter.
  pub choose_comm : (a b : V) → (seq a ≡ seq b → sig a ≡ sig b → a ≡ b) → choose a b ≡ choose b a
  choose_comm a b same = elim (Bool-cases (wins a b)) [
    | inl e ↦ elim (Bool-cases (wins b a)) [
      | inl f ↦
          let (s, g) = pick_higher_seq_antisymm (seq a) (seq b) (sig a) (sig b) e f in
          rw (e, f) (same s g)
      | inr f ↦ rw (e, f)
    ]
    | inr e ↦ rw (e, pick_higher_seq_total (seq a) (seq b) (sig a) (sig b) e)
  ]

  -- The pick is never older than either entry.
  pub choose-le : (a b : V) → (seq a ≤ seq (choose a b)) × (seq b ≤ seq (choose a b))
  choose-le a b = ground (
    arith,
    pick_higher_seq-le (seq a) (seq b) (sig a) (sig b),
    pick_higher_seq-le (seq b) (seq a) (sig b) (sig a),
    pick_higher_seq_total (seq a) (seq b) (sig a) (sig b),
  )

  -- The pick is one of the two entries.
  pub choose_either {ℓ} : (P : V → Type ℓ) (a b : V) → P a → P b → P (choose a b)
  choose_either P a b pa pb = elim (Bool-cases (wins a b)) [ inl e ↦ rw e pa | inr e ↦ rw e pb ]

-- Where one entry at most is on either side, the other is taken.
abbrev pub join : {V : Type 0} → (V → V → V) → Option V → Option V → Option V
join f none x = x
join f (some x) none = some x
join f (some x) (some y) = some (f x y)
