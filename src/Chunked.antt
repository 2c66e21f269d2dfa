-- ===== src/Chunked.antt =====
-- crates/types/src/chunked.rs: the manifest of a pack that is stored in chunks.
pub mod Split
pub mod Manifest
use Prim.Native.String.{String}
use freenet_git.Prelude.{
  ℕ, zero, suc, ◌+◌, ◌-◌, ◌*◌, ◌%◌, ◌^◌, Bytes, List, [], ◌∷◌, length, take, drop, map,
}
use freenet_git.Prelude.{Option, none, some, not, ltb, ◌==◌, ◌||◌, if◌then◌else◌}
use freenet_git.Crypto.{Crypto}
use freenet_git.Outcome.{Result, ok, err, panic, ◌>>=◌, ◌>>◌, ok_or, map_err}

-- 1 MiB.
abbrev pub default_chunk_size : ℕ
default_chunk_size = 1024 * 1024

pub data ManifestError : Type 0 where
  decode inconsistent : String → ManifestError
  unsupported_version : ℕ → ManifestError
  -- The total size, the number of chunks and the chunk size.
  size_out_of_range : ℕ → ℕ → ℕ → ManifestError

pub record ChunkedPackManifestV1 : Type 0 where
  pub version : ℕ
  pub chunk_size : ℕ
  pub total_size : ℕ
  pub chunk_count : ℕ
  pub chunk_hashes : List Bytes

abbrev pub sum : List ℕ → ℕ
sum [] = 0
sum (x ∷ xs) = x + sum xs

-- `from_chunks`. More than 2^32 chunks panic; the sum of the lengths is a `u64`.
unfoldable pub from_chunks : {E : Type 0} → Crypto → ℕ → List Bytes → Result E ChunkedPackManifestV1
from_chunks c chunk_size chunks =
    if ltb (length chunks) (2 ^ 32)
    then ok (record {
      version = 1;
      chunk_size = chunk_size;
      total_size = sum (map length chunks) % 2 ^ 64;
      chunk_count = length chunks;
      chunk_hashes = map c.blake3 chunks;
    })
    else panic

-- `u64::checked_mul`.
abbrev pub checked_mul : ℕ → ℕ → Option ℕ
checked_mul a b = if ltb (a * b) (2 ^ 64) then some (a * b) else none

unfoldable pub validate : ChunkedPackManifestV1 → Result ManifestError (Unit {0})
validate m = do
  let out_of_range = size_out_of_range m.total_size m.chunk_count m.chunk_size
  if not (m.version == 1) then err (unsupported_version m.version) else ok tt
  if m.chunk_count == 0 then err (inconsistent "chunk_count must be > 0") else ok tt
  if m.chunk_size == 0 then err (inconsistent "chunk_size must be > 0") else ok tt
  if m.total_size == 0 then err (inconsistent "total_size must be > 0") else ok tt
  if not (m.chunk_count == length m.chunk_hashes)
      then err (inconsistent "chunk_count does not match chunk_hashes length")
      else ok tt
  upper ← ok_or out_of_range (checked_mul m.chunk_size m.chunk_count)
  lower ← ok_or out_of_range (checked_mul m.chunk_size (m.chunk_count - 1))
  if ltb upper m.total_size || not (ltb lower m.total_size) then err out_of_range else ok tt

-- `chunk_len`, for a chunk `i` of a validated manifest; `-` on `u64` wraps.
unfoldable pub chunk_len : ChunkedPackManifestV1 → ℕ → ℕ
chunk_len m i =
    if ltb ((i + 1) % 2 ^ 32) m.chunk_count
    then m.chunk_size
    else (m.total_size + 2 ^ 64 - m.chunk_size * (m.chunk_count - 1)) % 2 ^ 64

-- `<[u8]>::chunks`, with as many rounds as there are bytes at most.
unfoldable pub chunks : ℕ → ℕ → Bytes → List Bytes
chunks fuel size [] = []
chunks zero size (b ∷ bs) = []
chunks (suc fuel) size (b ∷ bs) = take size (b ∷ bs) ∷ chunks fuel size (drop size (b ∷ bs))

-- The two `assert!`s panic.
unfoldable pub split_pack : {E : Type 0} → Bytes → ℕ → Result E (List Bytes)
split_pack pack chunk_size =
    if length pack == 0 || chunk_size == 0 then panic else ok (chunks (length pack) chunk_size pack)

-- `to_bytes` is `serialize` and `from_bytes` is `deserialize`, then `validate`. The codec is
-- `bincode`'s, derived from the type.
module _ (deserialize : Bytes → Result String ChunkedPackManifestV1) where
  unfoldable pub from_bytes : Bytes → Result ManifestError ChunkedPackManifestV1
  from_bytes bs = do manifest ← map_err decode (deserialize bs); validate manifest; ok manifest
