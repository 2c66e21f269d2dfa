-- ===== src/Signing/TipKeys.antt =====
-- The extension keys that advertise a bundle's tip: `bundle-tip:` and the bundle's id in hex.
use freenet_git.Prelude.{
  strip_prefix, strip_prefix-append, ℕ, ◌+◌, ◌-◌, ◌*◌, ◌/◌, ◌%◌, ◌<◌, ◌≡◌, refl, arith, Bytes,
  bytes, [], ◌∷◌, ◌++◌,
}
use freenet_git.Prelude.{
  length, All, Option, none, some, false, ◌&&◌, leb, ltb, ◌==◌, if◌then◌else◌, not,
}
use freenet_git.Encoding.Signed.{◌>>=◌}

-- `const BUNDLE_TIP_EXTENSION_PREFIX`.
abbrev pub bundle_tip_extension_prefix : Bytes
bundle_tip_extension_prefix = bytes "bundle-tip:"

-- A digit of `{:02x}`.
unfoldable pub hex_digit : ℕ → ℕ
hex_digit n = if ltb n 10 then n + 48 else n + 87

-- `format!("{b:02x}")` for each byte.
unfoldable pub hex_bytes : Bytes → Bytes
hex_bytes [] = []
hex_bytes (b ∷ bs) = hex_digit (b / 16) ∷ hex_digit (b % 16) ∷ hex_bytes bs

unfoldable pub bundle_tip_extension_key : Bytes → Bytes
bundle_tip_extension_key bundle_id = bundle_tip_extension_prefix ++ hex_bytes bundle_id

-- `char::to_digit(16)`, which takes both cases.
unfoldable pub digit : ℕ → Option ℕ
digit x =
    if leb 48 x && leb x 57
    then some (x - 48)
    else if leb 97 x && leb x 102
    then some (x - 87)
    else if leb 65 x && leb x 70
    then some (x - 55)
    else none

-- `u8::from_str_radix(s, 16)` on two bytes: two digits, or a plus sign and a digit.
unfoldable pub from_str_radix : ℕ → ℕ → Option ℕ
from_str_radix a b =
    if a == 43 then digit b else (do high ← digit a; low ← digit b; some (high * 16 + low))

-- The loop over the 32 pairs. A byte outside ASCII is no digit; nor does `get` then return a pair.
unfoldable pub parse_pairs : Bytes → Option Bytes
parse_pairs [] = some []
parse_pairs (a ∷ []) = none
parse_pairs (a ∷ b ∷ rest) = do
  byte ← from_str_radix a b
  bytes ← parse_pairs rest
  some (byte ∷ bytes)

unfoldable pub parse_bundle_tip_extension_key : Bytes → Option Bytes
parse_bundle_tip_extension_key ext_key = do
  hex ← strip_prefix bundle_tip_extension_prefix ext_key
  if not (length hex == 64) then none else parse_pairs hex

digit-hex_digit : (n : ℕ) → n < 16 → digit (hex_digit n) ≡ some n
unfolding digit hex_digit
digit-hex_digit n h = ground arith

hex_digit-ne_plus : (n : ℕ) → n < 16 → (hex_digit n == 43) ≡ false
unfolding hex_digit
hex_digit-ne_plus n h = ground arith

parse_pairs-hex_bytes : (bs : Bytes) → All (λ b. b < 256) bs → parse_pairs (hex_bytes bs) ≡ some bs
unfolding parse_pairs hex_bytes from_str_radix
parse_pairs-hex_bytes [] h = refl
parse_pairs-hex_bytes (b ∷ bs) h =
    rw
      (
        hex_digit-ne_plus (b / 16) (omega arith),
        digit-hex_digit (b / 16) (omega arith),
        digit-hex_digit (b % 16) (omega arith),
        parse_pairs-hex_bytes bs h.1,
      )
      (ground arith)

pub length-hex_bytes : (bs : Bytes) → length (hex_bytes bs) ≡ 2 * length bs
unfolding hex_bytes
length-hex_bytes [] = omega arith
length-hex_bytes (b ∷ bs) = omega (arith, length-hex_bytes bs)

-- The key made for a bundle id of 32 bytes parses back to that id.
pub parse-bundle_tip_extension_key :
    (bundle_id : Bytes)
    → length bundle_id ≡ 32
    → All (λ b. b < 256) bundle_id
    → parse_bundle_tip_extension_key (bundle_tip_extension_key bundle_id) ≡ some bundle_id
unfolding parse_bundle_tip_extension_key bundle_tip_extension_key
parse-bundle_tip_extension_key bundle_id n h =
    rw (strip_prefix-append bundle_tip_extension_prefix (hex_bytes bundle_id))
      (ground (arith, length-hex_bytes bundle_id, parse_pairs-hex_bytes bundle_id h))

-- A key with a plus sign in front of each digit.
unfoldable pub plus_bytes : Bytes → Bytes
plus_bytes [] = []
plus_bytes (b ∷ bs) = 43 ∷ hex_digit b ∷ plus_bytes bs

length-plus_bytes : (bs : Bytes) → length (plus_bytes bs) ≡ 2 * length bs
unfolding plus_bytes
length-plus_bytes [] = omega arith
length-plus_bytes (b ∷ bs) = omega (arith, length-plus_bytes bs)

parse_pairs-plus_bytes : (bs : Bytes) → All (λ b. b < 16) bs → parse_pairs (plus_bytes bs) ≡ some bs
unfolding parse_pairs plus_bytes from_str_radix
parse_pairs-plus_bytes [] h = refl
parse_pairs-plus_bytes (b ∷ bs) h = rw (digit-hex_digit b h.0, parse_pairs-plus_bytes bs h.1)

-- For every id of 32 bytes below 16, the parser also takes a key that is not hex: a plus sign before
-- each digit gives the same id.
pub parse_takes_plus :
    (bundle_id : Bytes)
    → length bundle_id ≡ 32
    → All (λ b. b < 16) bundle_id
    → parse_bundle_tip_extension_key (bundle_tip_extension_prefix ++ plus_bytes bundle_id)
      ≡ some bundle_id
unfolding parse_bundle_tip_extension_key
parse_takes_plus bundle_id n h =
    rw (strip_prefix-append bundle_tip_extension_prefix (plus_bytes bundle_id))
      (ground (arith, length-plus_bytes bundle_id, parse_pairs-plus_bytes bundle_id h))
