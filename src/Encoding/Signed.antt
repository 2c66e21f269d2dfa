-- ===== src/Encoding/Signed.antt =====
-- crates/encoding/src/signed.rs: the length-prefixed payload that signatures cover. `none` is the
-- panic of `expect` on a field of 4 GiB or more.
pub mod Fields
use freenet_git.Prelude.{ℕ, ◌+◌, ◌^◌, Bool, true, false, Option, none, some, Bytes, bytes, length}
use freenet_git.Prelude.{ltb, if◌then◌else◌, List, [], ◌∷◌, ◌++◌}
use freenet_git.Encoding.{wire_version}
use freenet_git.Encoding.LittleEndian.{to_le_bytes}

infixl 5 ◌>>=◌
abbrev pub ◌>>=◌ {ℓ κ} : {A : Type ℓ} {B : Type κ} → Option A → (A → Option B) → Option B
none >>= f = none
some a >>= f = f a

pub record Builder : Type 0 where
  pub buf : Bytes

-- Appends a field: its length as a `u32`, then its bytes.
unfoldable pub field_bytes : Bytes → Builder → Option Builder
field_bytes bs b =
    if ltb (length bs) (2 ^ 32)
    then some (record { buf = b.buf ++ (to_le_bytes 4 (length bs) ++ bs) })
    else none

unfoldable pub field_str : Bytes → Builder → Option Builder
field_str s b = field_bytes s b

unfoldable pub field_u32 : ℕ → Builder → Option Builder
field_u32 x b = field_bytes (to_le_bytes 4 x) b

unfoldable pub field_u64 : ℕ → Builder → Option Builder
field_u64 x b = field_bytes (to_le_bytes 8 x) b

unfoldable pub field_bool : Bool → Builder → Option Builder
field_bool x b = field_bytes ((if x then 1 else 0) ∷ []) b

unfoldable pub field_option_bytes : Option Bytes → Builder → Option Builder
field_option_bytes none b = field_bytes (0 ∷ []) b
field_option_bytes (some x) b = field_bytes (1 ∷ x) b

-- `format!("freenet-git/{}/{}", WIRE_VERSION, domain_suffix)`.
abbrev pub domain : Bytes → Bytes
domain suffix = bytes "freenet-git/" ++ (wire_version ++ (bytes "/" ++ suffix))

-- `Builder::new`.
unfoldable pub new : Bytes → Option Builder
new suffix = field_bytes (domain suffix) (record { buf = [] })

unfoldable pub build : Bytes → (Builder → Option Builder) → Option Bytes
build suffix f = do b ← new suffix; b ← f b; some b.buf
