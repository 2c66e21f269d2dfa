-- ===== src/BTreeMap/Laws.antt =====
-- Laws of the ordered map: lookups after each operation, order kept, equality by lookups.
use Prim.Native.Nat.Ordering.{lt}
use freenet_git.Prelude.{◌≡◌, refl, none, some, [], ◌∷◌, Bytes}
use freenet_git.Prelude.{arith, false, if◌then◌else◌}
use freenet_git.BTreeMap.{BTreeMap, get, insert, remove}
use freenet_git.BTreeMap.Order.{cmp, cmp_refl, eq_of_cmp, lt_of_gt, lt_trans, eqb}

module _ {ℓ} {V : Type ℓ} where
  abbrev pub Above : Bytes → BTreeMap V → Type 0
  Above k [] = Unit
  Above k ((j, v) ∷ m) = (cmp k j ≡ lt) × Above k m

  -- Keys strictly increase, as iteration over a `BTreeMap` yields them.
  abbrev pub IsSorted : BTreeMap V → Type 0
  IsSorted [] = Unit
  IsSorted ((k, v) ∷ m) = Above k m × IsSorted m

  pub get-cons :
      (j k : Bytes) (v : V) (m : BTreeMap V)
      → get j ((k, v) ∷ m) ≡ (if eqb j k then some v else get j m)
  unfolding get eqb
  get-cons j k v m = ground arith

  pub get-insert :
      (j k : Bytes) (v : V) (m : BTreeMap V)
      → get j (insert k v m) ≡ (if eqb j k then some v else get j m)
  unfolding get insert eqb
  get-insert j k v [] = ground arith
  get-insert j k v ((i, w) ∷ m) = ground (
    arith,
    eq_of_cmp j k,
    eq_of_cmp j i,
    eq_of_cmp k i,
    cmp_refl j,
    cmp_refl k,
    get-insert j k v m,
  )

  pub get-remove_ne :
      (j k : Bytes) (m : BTreeMap V) → eqb j k ≡ false → get j (remove k m) ≡ get j m
  unfolding get remove eqb
  get-remove_ne j k [] h = refl
  get-remove_ne j k ((i, w) ∷ m) h =
      ground (arith, eq_of_cmp j i, eq_of_cmp k i, cmp_refl j, get-remove_ne j k m)

  pub Above-trans : (j k : Bytes) (m : BTreeMap V) → cmp j k ≡ lt → Above k m → Above j m
  Above-trans j k [] h a = tt
  Above-trans j k ((i, w) ∷ m) h a = (lt_trans j k i h a.0, Above-trans j k m h a.1)

  pub get-Above : (k : Bytes) (m : BTreeMap V) → Above k m → get k m ≡ none
  unfolding get
  get-Above k [] a = refl
  get-Above k ((i, w) ∷ m) a = ground (arith, get-Above k m)

  Above-insert :
      (j k : Bytes) (v : V) (m : BTreeMap V) → cmp j k ≡ lt → Above j m → Above j (insert k v m)
  unfolding insert
  Above-insert j k v [] h a = (h, tt)
  Above-insert j k v ((i, w) ∷ m) h a = ground (arith, Above-insert j k v m)

  pub insert-IsSorted : (k : Bytes) (v : V) (m : BTreeMap V) → IsSorted m → IsSorted (insert k v m)
  unfolding insert
  insert-IsSorted k v [] s = (tt, tt)
  insert-IsSorted k v ((i, w) ∷ m) s = ground (
    arith,
    eq_of_cmp k i,
    lt_of_gt k i,
    Above-trans k i m,
    Above-insert i k v m,
    insert-IsSorted k v m,
  )

  Above-remove : (j k : Bytes) (m : BTreeMap V) → Above j m → Above j (remove k m)
  unfolding remove
  Above-remove j k [] a = tt
  Above-remove j k ((i, w) ∷ m) a = ground (arith, Above-remove j k m)

  pub remove-IsSorted : (k : Bytes) (m : BTreeMap V) → IsSorted m → IsSorted (remove k m)
  unfolding remove
  remove-IsSorted k [] s = tt
  remove-IsSorted k ((i, w) ∷ m) s = ground (arith, Above-remove i k m, remove-IsSorted k m)

  get_head : (k : Bytes) (v : V) (m : BTreeMap V) → get k ((k, v) ∷ m) ≡ some v
  unfolding get
  get_head k v m = ground (arith, cmp_refl k)

  get_below :
      (j k : Bytes) (v : V) (m : BTreeMap V) → cmp j k ≡ lt → Above k m → get j ((k, v) ∷ m) ≡ none
  unfolding get
  get_below j k v m h a = ground (arith, get-Above j m, Above-trans j k m)

  pub get_nil : (k : Bytes) → get {V = V} k [] ≡ none
  unfolding get
  get_nil k = refl

  -- With equal lookups the first keys are equal: the lower one would be missing on the other side.
  heads_agree :
      (k i : Bytes) (v w : V) (m n : BTreeMap V)
      → Above k m
      → Above i n
      → ((j : Bytes) → get j ((k, v) ∷ m) ≡ get j ((i, w) ∷ n))
      → k ≡ i
  heads_agree k i v w m n a b h = ground (
    arith,
    eq_of_cmp k i,
    lt_of_gt k i,
    h k,
    h i,
    get_head k v m,
    get_head i w n,
    get_below k i w n,
    get_below i k v m,
  )

  -- What equal lookups say of the first values, and of the tails.
  values_agree :
      (k i : Bytes) (v w : V) (m n : BTreeMap V)
      → k ≡ i
      → ((j : Bytes) → get j ((k, v) ∷ m) ≡ get j ((i, w) ∷ n))
      → v ≡ w
  values_agree k i v w m n e h = ground (arith, h k, h i, get_head k v m, get_head i w n)

  tails_agree :
      (k i : Bytes) (v w : V) (m n : BTreeMap V)
      → k ≡ i
      → Above k m
      → Above i n
      → ((j : Bytes) → get j ((k, v) ∷ m) ≡ get j ((i, w) ∷ n))
      → (j : Bytes) → get j m ≡ get j n
  unfolding get
  tails_agree k i v w m n e a b h j =
      ground (arith, h j, eq_of_cmp j k, cmp_refl j, get-Above k m a, get-Above i n b)

  -- Two ordered maps with the same lookups are the same.
  pub sorted_ext :
      (m n : BTreeMap V) → IsSorted m → IsSorted n → ((j : Bytes) → get j m ≡ get j n) → m ≡ n
  sorted_ext [] [] s t h = refl
  sorted_ext [] ((k, v) ∷ n) s t h = ground (arith, h k, get_head k v n, get_nil k)
  sorted_ext ((k, v) ∷ m) [] s t h = ground (arith, h k, get_head k v m, get_nil k)
  sorted_ext ((k, v) ∷ m) ((i, w) ∷ n) s t h =
      let e = heads_agree k i v w m n s.0 t.0 h in
      cc (
        e,
        values_agree k i v w m n e h,
        sorted_ext m n s.1 t.1 (tails_agree k i v w m n e s.0 t.0 h),
      )
