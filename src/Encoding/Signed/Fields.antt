-- ===== src/Encoding/Signed/Fields.antt =====
-- What the builder writes: the fields one after another, and that the bytes determine the fields.
use freenet_git.Prelude.{◌^◌, ◌<◌, ◌≡◌, refl, sym, ap, ◌∙◌, arith, ltb→lt}
use freenet_git.Prelude.{Option, some, Bytes, length, length-append}
use freenet_git.Prelude.{List, [], ◌∷◌, ◌++◌, All, Option-cases, inl, inr, lt→ltb}
use freenet_git.Encoding.LittleEndian.{
  to_le_bytes, length-to_le_bytes, to_le_bytes-injective, append_split,
}
use freenet_git.Encoding.Signed.{Builder, ◌>>=◌, field_bytes, new, build, domain}
use mathlib.Core.List.{append_assoc, append-nil}

-- A length that the `u32` prefix can hold.
abbrev pub Fits : Bytes → Type 0
Fits x = length x < 2 ^ 32

-- The fields with their length prefixes.
unfoldable pub fields : List Bytes → Bytes
fields [] = []
fields (x ∷ xs) = to_le_bytes 4 (length x) ++ (x ++ fields xs)

-- The bytes determine the fields: no two lists of fields share an encoding.
pub fields-injective :
    (xs ys : List Bytes) → All Fits xs → All Fits ys → fields xs ≡ fields ys → xs ≡ ys
unfolding fields
fields-injective [] [] hx hy e = refl
fields-injective [] (y ∷ ys) hx hy e = absurd (
    omega (
      arith,
      ap length e,
      length-append (to_le_bytes 4 (length y)) (y ++ fields ys),
      length-to_le_bytes 4 (length y),
    ))
fields-injective (x ∷ xs) [] hx hy e = absurd (
    omega (
      arith,
      ap length e,
      length-append (to_le_bytes 4 (length x)) (x ++ fields xs),
      length-to_le_bytes 4 (length x),
    ))
fields-injective (x ∷ xs) (y ∷ ys) hx hy e =
    let (le, rest) =
      append_split (to_le_bytes 4 (length x)) (to_le_bytes 4 (length y)) (x ++ fields xs)
        (y ++ fields ys) (length-to_le_bytes 4 (length x) ∙ sym (length-to_le_bytes 4 (length y)))
        e in
    let (head, tail) =
      append_split x y (fields xs) (fields ys)
        (to_le_bytes-injective 4 (length x) (length y) (omega arith) (omega arith) le) rest in
    cc (head, fields-injective xs ys hx.1 hy.1 tail)

-- A run of fields written in turn.
unfoldable pub put_fields : List Bytes → Builder → Option Builder
put_fields [] b = some b
put_fields (x ∷ xs) b = do b ← field_bytes x b; put_fields xs b

field_bytes_lem :
    (x : Bytes) (b c : Builder)
    → field_bytes x b ≡ some c
    → Fits x × (c.buf ≡ b.buf ++ (to_le_bytes 4 (length x) ++ x))
unfolding field_bytes
field_bytes_lem x b c h = ground (arith, ltb→lt (length x) (2 ^ 32))

put_fields_lem :
    (xs : List Bytes) (b c : Builder)
    → put_fields xs b ≡ some c
    → All Fits xs × (c.buf ≡ b.buf ++ fields xs)
unfolding put_fields fields
put_fields_lem [] b c h = (tt, rw append-nil (ground arith))
put_fields_lem (x ∷ xs) b c h = elim (Option-cases (field_bytes x b)) [
  | inl none_eq ↦ absurd (ground arith)
  | inr (d, e) ↦
      let (fit, first) = field_bytes_lem x b d e in
      let (fits, others) = put_fields_lem xs d c (rw e at h) in
      ((fit, fits), others ∙ rw first (simp append_assoc))
]

-- Fields that fit are written.
pub put_fields-Fits :
    (xs : List Bytes) (b : Builder) → All Fits xs → (c : Builder) × (put_fields xs b ≡ some c)
unfolding put_fields field_bytes
put_fields-Fits [] b h = (b, refl)
put_fields-Fits (x ∷ xs) b h = rw (lt→ltb (length x) (2 ^ 32) h.0) (put_fields-Fits xs _ h.1)

abbrev empty : Builder
empty = record { buf = [] }

build_lem :
    (suffix : Bytes) (xs : List Bytes)
    → build suffix (put_fields xs) ≡ put_fields (domain suffix ∷ xs) empty >>= λ c. some c.buf
unfolding build new put_fields
build_lem suffix xs = elim (Option-cases (field_bytes (domain suffix) empty)) [
  | inl e ↦ rw e
  | inr (c, e) ↦ rw e
]

-- What a finished payload is: the domain field, then the fields, each within its length prefix.
pub build-put_fields :
    (suffix : Bytes) (xs : List Bytes) (p : Bytes)
    → build suffix (put_fields xs) ≡ some p
    → All Fits (domain suffix ∷ xs) × (p ≡ fields (domain suffix ∷ xs))
build-put_fields suffix xs p h = elim (Option-cases (put_fields (domain suffix ∷ xs) empty)) [
  | inl e ↦ cc (rw (build_lem, e) at h)
  | inr (c, e) ↦
      let (fits, written) = put_fields_lem (domain suffix ∷ xs) empty c e in
      (fits, ground (arith, rw (build_lem, e) at h))
]

-- Whatever fits is written, in full.
pub build-fields :
    (suffix : Bytes) (xs : List Bytes)
    → All Fits (domain suffix ∷ xs)
    → build suffix (put_fields xs) ≡ some (fields (domain suffix ∷ xs))
build-fields suffix xs h =
    let (c, e) = put_fields-Fits (domain suffix ∷ xs) empty h in
    rw (build_lem, e) (ground (arith, put_fields_lem (domain suffix ∷ xs) empty c e))
