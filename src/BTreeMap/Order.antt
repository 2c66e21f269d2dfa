-- ===== src/BTreeMap/Order.antt =====
-- `Ord` for byte strings: `[u8; N]`, `Vec<u8>` and `String` all compare lexicographically by byte.
use Prim.Native.Nat.Ordering.{lt, eq, gt}
use freenet_git.Prelude.{◌≡◌, refl, ◌≢◌, [], ◌∷◌, Bytes, arith, compare, Ordering}
use freenet_git.Prelude.{Bool, true, false}

unfoldable pub cmp : Bytes → Bytes → Ordering
cmp [] [] = eq
cmp [] (y ∷ ys) = lt
cmp (x ∷ xs) [] = gt
cmp (x ∷ xs) (y ∷ ys) = elim (compare x y) [ lt ↦ lt | eq ↦ cmp xs ys | gt ↦ gt ]

pub cmp_refl : (a : Bytes) → cmp a a ≡ eq
unfolding cmp
cmp_refl [] = refl
cmp_refl (x ∷ xs) = ground (arith, cmp_refl xs)

pub eq_of_cmp : (a b : Bytes) → cmp a b ≡ eq → a ≡ b
unfolding cmp
eq_of_cmp [] [] h = refl
eq_of_cmp [] (y ∷ ys) h = ground arith
eq_of_cmp (x ∷ xs) [] h = ground arith
eq_of_cmp (x ∷ xs) (y ∷ ys) h = ground (arith, eq_of_cmp xs ys)

pub lt_of_gt : (a b : Bytes) → cmp a b ≡ gt → cmp b a ≡ lt
unfolding cmp
lt_of_gt [] [] h = ground arith
lt_of_gt [] (y ∷ ys) h = ground arith
lt_of_gt (x ∷ xs) [] h = refl
lt_of_gt (x ∷ xs) (y ∷ ys) h = ground (arith, lt_of_gt xs ys)

pub gt_of_lt : (a b : Bytes) → cmp a b ≡ lt → cmp b a ≡ gt
unfolding cmp
gt_of_lt [] [] h = ground arith
gt_of_lt [] (y ∷ ys) h = refl
gt_of_lt (x ∷ xs) [] h = ground arith
gt_of_lt (x ∷ xs) (y ∷ ys) h = ground (arith, gt_of_lt xs ys)

pub lt_trans : (a b c : Bytes) → cmp a b ≡ lt → cmp b c ≡ lt → cmp a c ≡ lt
unfolding cmp
lt_trans [] [] c h g = ground arith
lt_trans [] (y ∷ ys) [] h g = ground arith
lt_trans [] (y ∷ ys) (z ∷ zs) h g = refl
lt_trans (x ∷ xs) [] c h g = ground arith
lt_trans (x ∷ xs) (y ∷ ys) [] h g = ground arith
lt_trans (x ∷ xs) (y ∷ ys) (z ∷ zs) h g = ground (arith, lt_trans xs ys zs)

-- `==` on byte strings.
unfoldable pub eqb : Bytes → Bytes → Bool
eqb a b = elim (cmp a b) [ eq ↦ true | _ ↦ false ]

pub eqb→eq : (a b : Bytes) → eqb a b ≡ true → a ≡ b
unfolding eqb
eqb→eq a b h = ground (arith, eq_of_cmp a b)

pub eqb_refl : (a : Bytes) → eqb a a ≡ true
unfolding eqb
eqb_refl a = ground (arith, cmp_refl a)

pub ne_of_eqb : (a b : Bytes) → eqb a b ≡ false → a ≢ b
ne_of_eqb a b h = λ e. ground (arith, eqb_refl a)

pub eqb_of_ne : (a b : Bytes) → a ≢ b → eqb a b ≡ false
eqb_of_ne a b h = ground (arith, eqb→eq a b)
