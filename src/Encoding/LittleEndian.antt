-- ===== src/Encoding/LittleEndian.antt =====
-- `to_le_bytes` of an unsigned integer, and the lemma that takes concatenations apart.
use freenet_git.Prelude.{ℕ, zero, suc, ◌+◌, ◌*◌, ◌/◌, ◌%◌, ◌^◌, ◌<◌, ◌≡◌, refl, ap}
use freenet_git.Prelude.{List, [], ◌∷◌, ◌++◌, Bytes, arith, length, All}
use native.Mathlib.Nat.{pow-suc}

-- `n` bytes, the lowest first.
unfoldable pub to_le_bytes : ℕ → ℕ → Bytes
to_le_bytes zero x = []
to_le_bytes (suc n) x = (x % 256) ∷ to_le_bytes n (x / 256)

pub length-to_le_bytes : (n x : ℕ) → length (to_le_bytes n x) ≡ n
unfolding to_le_bytes
length-to_le_bytes zero x = refl
length-to_le_bytes (suc n) x = ap suc (length-to_le_bytes n (x / 256))

pub to_le_bytes-IsByte : (n x : ℕ) → All (λ b. b < 256) (to_le_bytes n x)
unfolding to_le_bytes
to_le_bytes-IsByte zero x = tt
to_le_bytes-IsByte (suc n) x = (omega arith, to_le_bytes-IsByte n (x / 256))

-- The number that little-endian bytes stand for.
unfoldable pub of_le_bytes : Bytes → ℕ
of_le_bytes [] = 0
of_le_bytes (b ∷ bs) = b + 256 * of_le_bytes bs

pub of_le_bytes-to_le_bytes : (n x : ℕ) → x < 256 ^ n → of_le_bytes (to_le_bytes n x) ≡ x
unfolding to_le_bytes of_le_bytes
of_le_bytes-to_le_bytes zero x h = omega arith
of_le_bytes-to_le_bytes (suc n) x h =
    omega (arith, of_le_bytes-to_le_bytes n (x / 256) (fits (pow-suc 256 n)))
  where
    fits : 256 ^ suc n ≡ 256 ^ n * 256 → x / 256 < 256 ^ n
    fits e = omega arith

pub to_le_bytes-injective :
    (n x y : ℕ) → x < 256 ^ n → y < 256 ^ n → to_le_bytes n x ≡ to_le_bytes n y → x ≡ y
to_le_bytes-injective n x y hx hy e =
    omega (arith, of_le_bytes-to_le_bytes n x hx, of_le_bytes-to_le_bytes n y hy, ap of_le_bytes e)

-- Two concatenations with first parts of one length agree part by part.
pub append_split {ℓ} :
    {A : Type ℓ} (xs ys r s : List A)
    → length xs ≡ length ys
    → xs ++ r ≡ ys ++ s
    → (xs ≡ ys) × (r ≡ s)
append_split [] [] r s l e = (refl, e)
append_split [] (y ∷ ys) r s l e = absurd (omega arith)
append_split (x ∷ xs) [] r s l e = absurd (omega arith)
append_split (x ∷ xs) (y ∷ ys) r s l e =
    let (h, t) = append_split xs ys r s (omega arith) (cc) in (cc, t)
