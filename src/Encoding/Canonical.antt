-- ===== src/Encoding/Canonical.antt =====
-- crates/encoding/src/canonical.rs: the deterministic CBOR encoder behind bundle ids. `out` is only
-- ever appended to, so each function here gives the bytes that its Rust namesake pushes onto it.
pub mod Head
pub mod PrefixFree
use Prim.Native.Nat.Ordering.{lt, eq, gt}
use Prim.Native.Nat.{bit_or}
use freenet_git.Prelude.{ℕ, zero, suc, ◌+◌, ◌*◌, ◌/◌, ◌%◌, ◌^◌, Bytes, length, ltb, if◌then◌else◌}
use freenet_git.Prelude.{[], ◌∷◌, ◌++◌}
use freenet_git.BTreeMap.Order.{cmp}

-- `n` bytes, the highest first.
unfoldable pub to_be_bytes : ℕ → ℕ → Bytes
to_be_bytes zero x = []
to_be_bytes (suc n) x = (x / 256 ^ n % 256) ∷ to_be_bytes n x

-- A major type in the top three bits, and the shortest form of a `u64`.
unfoldable pub write_uint : ℕ → ℕ → Bytes
write_uint major value =
    let prefix = major * 2 ^ 5 % 256 in
    if ltb value 24
    then bit_or prefix (value % 256) ∷ []
    else if ltb value 0x100
    then bit_or prefix 24 ∷ (value % 256) ∷ []
    else if ltb value 0x1_0000
    then bit_or prefix 25 ∷ to_be_bytes 2 (value % 2 ^ 16)
    else if ltb value 0x1_0000_0000
    then bit_or prefix 26 ∷ to_be_bytes 4 (value % 2 ^ 32)
    else bit_or prefix 27 ∷ to_be_bytes 8 value

-- `array` holds its items, and `map` its entries in the order of their encoded keys.
mutual
  pub data Value : Type 0 where
    uint : ℕ → Value
    byte_string : Bytes → Value
    text : Bytes → Value
    array : Items → Value
    map : Entries → Value

  pub data Items : Type 0 where
    nil : Items
    cons : Value → Items → Items

  -- `BTreeMap<Vec<u8>, Value>`.
  pub data Entries : Type 0 where
    end : Entries
    entry : Bytes → Value → Entries → Entries

abbrev pub count_items : Items → ℕ
count_items nil = 0
count_items (cons v vs) = suc (count_items vs)

abbrev pub count_entries : Entries → ℕ
count_entries end = 0
count_entries (entry k v es) = suc (count_entries es)

unfoldable mutual
  pub encode : Value → Bytes
  encode (uint v) = write_uint 0 v
  encode (byte_string b) = write_uint 2 (length b) ++ b
  encode (text s) = write_uint 3 (length s) ++ s
  encode (array vs) = write_uint 4 (count_items vs) ++ encode_items vs
  encode (map es) = write_uint 5 (count_entries es) ++ encode_entries es

  pub encode_items : Items → Bytes
  encode_items nil = []
  encode_items (cons v vs) = encode v ++ encode_items vs

  pub encode_entries : Entries → Bytes
  encode_entries end = []
  encode_entries (entry k v es) = k ++ (encode v ++ encode_entries es)

-- `BTreeMap::insert` on the entries of a map.
unfoldable pub insert : Bytes → Value → Entries → Entries
insert k v end = entry k v end
insert k v (entry j w es) = elim (cmp k j) [
  | lt ↦ entry k v (entry j w es)
  | eq ↦ entry k v es
  | gt ↦ entry j w (insert k v es)
]

-- `MapBuilder::entry` with a text key; the builder's state is its entries.
unfoldable pub text_entry : Bytes → Value → Entries → Entries
text_entry key value entries = insert (encode (text key)) value entries
