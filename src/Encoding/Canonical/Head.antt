-- ===== src/Encoding/Canonical/Head.antt =====
-- The head of an item reads back: the major type, the number, and the bytes that follow.
use Prim.Native.Nat.{bit_or}
use freenet_git.Prelude.{ℕ, zero, suc, ◌+◌, ◌*◌, ◌/◌, ◌%◌, ◌^◌, ◌<◌, ◌≡◌, refl}
use freenet_git.Prelude.{Bool, true, false, Bytes, ltb, if◌then◌else◌, [], ◌∷◌, ◌++◌, arith}
use freenet_git.Prelude.{Option, none, some, ◌==◌, ==_iff}
use freenet_git.Encoding.Canonical.{to_be_bytes, write_uint}

-- A table over the eight major types and the 32 values of the low bits.
holds_below : (ℕ → Bool) → ℕ → Bool
holds_below test zero = true
holds_below test (suc k) = if test k then holds_below test k else false

holds_below-true : (test : ℕ → Bool) (v k : ℕ) → v < k → holds_below test k ≡ true → test v ≡ true
unfolding holds_below
holds_below-true test v zero l h = absurd (omega arith)
holds_below-true test v (suc k) l h = ground (arith, holds_below-true test v k)

or_table : holds_below (λ m. holds_below (λ v. bit_or (m * 32) v == (m * 32 + v)) 32) 8 ≡ true
unfolding holds_below
or_table = refl

pub bit_or-low : (m v : ℕ) → m < 8 → v < 32 → bit_or (m * 32) v ≡ m * 32 + v
bit_or-low m v hm hv = (==_iff _ _).0 (
    holds_below-true (λ w. bit_or (m * 32) w == (m * 32 + w)) v 32 hv
      (holds_below-true (λ n. holds_below (λ w. bit_or (n * 32) w == (n * 32 + w)) 32) m 8 hm
        or_table))

-- Big-endian bytes read back.
unfoldable pub of_be_bytes : ℕ → ℕ → Bytes → Option (ℕ × Bytes)
of_be_bytes zero acc bs = some (acc, bs)
of_be_bytes (suc n) acc [] = none
of_be_bytes (suc n) acc (b ∷ bs) = of_be_bytes n (acc * 256 + b) bs

with_major : ℕ → Option (ℕ × Bytes) → Option (ℕ × ℕ × Bytes)
with_major m none = none
with_major m (some (v, rest)) = some (m, v, rest)

-- An item's head: the major type, the number and the rest.
pub read_uint : Bytes → Option (ℕ × ℕ × Bytes)
read_uint [] = none
read_uint (b ∷ bs) =
    if ltb (b % 32) 24
    then some (b / 32, b % 32, bs)
    else if b % 32 == 24
    then with_major (b / 32) (of_be_bytes 1 0 bs)
    else if b % 32 == 25
    then with_major (b / 32) (of_be_bytes 2 0 bs)
    else if b % 32 == 26
    then with_major (b / 32) (of_be_bytes 4 0 bs)
    else if b % 32 == 27
    then with_major (b / 32) (of_be_bytes 8 0 bs)
    else none

be_one : (x : ℕ) (r : Bytes) → x < 2 ^ 8 → of_be_bytes 1 0 ((x % 256) ∷ r) ≡ some (x, r)
unfolding of_be_bytes
be_one x r h = ground arith

be_two :
    (x : ℕ) (r : Bytes)
    → x < 2 ^ 16
    → of_be_bytes 2 0 (to_be_bytes 2 (x % 2 ^ 16) ++ r) ≡ some (x, r)
unfolding of_be_bytes to_be_bytes
be_two x r h = ground arith

be_four :
    (x : ℕ) (r : Bytes)
    → x < 2 ^ 32
    → of_be_bytes 4 0 (to_be_bytes 4 (x % 2 ^ 32) ++ r) ≡ some (x, r)
unfolding of_be_bytes to_be_bytes
be_four x r h = ground arith

be_eight : (x : ℕ) (r : Bytes) → x < 2 ^ 64 → of_be_bytes 8 0 (to_be_bytes 8 x ++ r) ≡ some (x, r)
unfolding of_be_bytes to_be_bytes
be_eight x r h = ground arith

-- The prefix byte of each form.
prefix_byte : (m : ℕ) → m < 8 → m * 2 ^ 5 % 256 ≡ m * 32
prefix_byte m h = omega arith

-- One form: a first byte with low bits `i`, read with `n` bytes behind it.
direct : (m v : ℕ) (r : Bytes) → m < 8 → v < 24 → read_uint ((m * 32 + v) ∷ r) ≡ some (m, v, r)
unfolding read_uint
direct m v r hm hv = ground arith

-- For a major type below 8 and a number that fits a u64, reading a head gives back what was
-- written, on all five forms, and leaves what follows.
pub read_uint-write_uint :
    (major value : ℕ) (rest : Bytes)
    → major < 8
    → value < 2 ^ 64
    → read_uint (write_uint major value ++ rest) ≡ some (major, value, rest)
unfolding read_uint write_uint with_major
read_uint-write_uint m v r hm hv = rw (prefix_byte m hm) (
    ground (
      arith,
      bit_or-low m v,
      bit_or-low m (v % 256),
      bit_or-low m 24,
      bit_or-low m 25,
      bit_or-low m 26,
      bit_or-low m 27,
      be_one v r,
      be_two v r,
      be_four v r,
      be_eight v r,
    ))
