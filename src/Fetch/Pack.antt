-- ===== src/Fetch/Pack.antt =====
-- crates/freenet-git/src/chunked.rs, `fetch_chunked_pack_with_progress`: the manifest, the checks
-- against the bundle entry, and the chunks in the order in which their requests complete.
pub mod Complete
pub mod Sound
use Prim.Native.String.{String}
use freenet_git.Prelude.{
  ℕ, zero, suc, Bytes, List, [], ◌∷◌, length, map, Option, none, some, ◌==◌, not, if◌then◌else◌,
}
use freenet_git.Outcome.{Result, ok, err, ◌>>=◌, ◌>>◌, map_err, expect}
use freenet_git.Chunked.{ChunkedPackManifestV1, ManifestError, chunk_len, from_bytes}
use freenet_git.Fetch.{FetchError, collect_chunks_into_slots, assemble_chunks}

pub data PackError (E : Type 0) : Type 0 where
  zero_parallelism : PackError E
  get_manifest : E → PackError E
  decode_manifest : ManifestError → PackError E
  -- What the bundle entry says and what the manifest says.
  total_size_disagrees : ℕ → ℕ → PackError E
  chunk_count_disagrees : ℕ → ℕ → PackError E
  get_chunk : ℕ → E → PackError E
  -- The chunk, its length and the expected one.
  chunk_length_disagrees : ℕ → ℕ → ℕ → PackError E
  assembly : FetchError → PackError E

-- `manifest.chunk_hashes[i]`.
unfoldable pub nth : {A : Type 0} → List A → ℕ → Option A
nth [] i = none
nth (x ∷ xs) zero = some x
nth (x ∷ xs) (suc i) = nth xs i

module _ {E : Type 0} (get_pack : Bytes → Result E Bytes) where
  -- The task of one chunk.
  unfoldable pub fetch_chunk : ChunkedPackManifestV1 → ℕ → Result (PackError E) (ℕ × Bytes)
  fetch_chunk manifest i = do
    expected_hash ← expect (nth manifest.chunk_hashes i)
    chunk ← map_err (get_chunk i) (get_pack expected_hash)
    if length chunk == chunk_len manifest i
        then ok (i, chunk)
        else err (chunk_length_disagrees i (length chunk) (chunk_len manifest i))

  -- `order` is the order of completion of the tasks.
  unfoldable pub fetch_chunked_pack :
      (Bytes → Result String ChunkedPackManifestV1)
      → Bytes
      → ℕ
      → ℕ
      → ℕ
      → List ℕ
      → Result (PackError E) Bytes
  fetch_chunked_pack deserialize manifest_hash expected_total_size expected_chunk_count parallelism
        order =
      do
        if parallelism == 0 then err zero_parallelism else ok tt
        manifest_bytes ← map_err get_manifest (get_pack manifest_hash)
        manifest ← map_err decode_manifest (from_bytes deserialize manifest_bytes)
        if not (manifest.total_size == expected_total_size)
            then err (total_size_disagrees expected_total_size manifest.total_size)
            else ok tt
        if not (manifest.chunk_count == expected_chunk_count)
            then err (chunk_count_disagrees expected_chunk_count manifest.chunk_count)
            else ok tt
        received ← collect_chunks_into_slots (map (fetch_chunk manifest) order) manifest.chunk_count
        map_err assembly (assemble_chunks received manifest.total_size)
