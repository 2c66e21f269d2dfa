-- ===== src/Fetch.antt =====
-- The consumer half of fetching a chunked pack, crates/freenet-git/src/chunked.rs, and the cached GET
-- of one pack, crates/freenet-git/src/wsclient.rs.
pub mod Slots
pub mod Cache
pub mod Pack
use freenet_git.Prelude.{
  Bool, true, false, ℕ, zero, suc, ◌+◌, List, [], ◌∷◌, ◌++◌, Bytes, length, replicate, Option, none,
  some, ◌==◌, if◌then◌else◌,
}
use freenet_git.BTreeMap.Order.{eqb}
use freenet_git.Crypto.{Crypto}
use freenet_git.Outcome.{Result, ok, err, panic, ◌>>=◌, expect}

pub data FetchError : Type 0 where
  -- The index of the chunk.
  chunk_missing : ℕ → FetchError
  -- The length and the expected one.
  assembled_length : ℕ → ℕ → FetchError

-- `received[i] = Some(chunk)`; `none` is the panic on an index out of range.
unfoldable pub set_slot : ℕ → Bytes → List (Option Bytes) → Option (List (Option Bytes))
set_slot i chunk [] = none
set_slot zero chunk (s ∷ slots) = some (some chunk ∷ slots)
set_slot (suc i) chunk (s ∷ slots) = elim (set_slot i chunk slots) [
  | none ↦ none
  | some rest ↦ some (s ∷ rest)
]

-- The loop over the stream of results, in the order of completion.
unfoldable pub drain :
    {E : Type 0}
    → List (Result E (ℕ × Bytes))
    → List (Option Bytes)
    → Result E (List (Option Bytes))
drain [] received = ok received
drain (r ∷ stream) received = do
  done ← r
  received ← expect (set_slot done.0 done.1 received)
  drain stream received

-- The progress callback has no part in the result.
unfoldable pub collect_chunks_into_slots :
    {E : Type 0} → List (Result E (ℕ × Bytes)) → ℕ → Result E (List (Option Bytes))
collect_chunks_into_slots stream n = drain stream (replicate n none)

-- The loop over the slots from the `i`-th on, with what is assembled so far.
unfoldable pub assemble_from : ℕ → List (Option Bytes) → Bytes → Result FetchError Bytes
assemble_from i [] assembled = ok assembled
assemble_from i (none ∷ slots) assembled = err (chunk_missing i)
assemble_from i (some chunk ∷ slots) assembled = assemble_from (i + 1) slots (assembled ++ chunk)

unfoldable pub assemble_chunks : List (Option Bytes) → ℕ → Result FetchError Bytes
assemble_chunks received expected_total_size = do
  assembled ← assemble_from 0 received []
  if length assembled == expected_total_size
      then ok assembled
      else err (assembled_length (length assembled) expected_total_size)

-- The cached GET: the error of the fetcher, or the hashes that disagree.
pub data GetError (E : Type 0) : Type 0 where
  fetch_failed : E → GetError E
  hash_mismatch : Bytes → Bytes → GetError E

-- The network branch; the second part is what is written to the cache, if there is one.
unfoldable pub fetch_checked :
    {E : Type 0}
    → Crypto
    → Bool
    → Bytes
    → Result E Bytes
    → Result (GetError E) (Bytes × Option Bytes)
fetch_checked c has_cache pack_hash (ok bytes) =
    if eqb (c.blake3 bytes) pack_hash
    then ok (bytes, (if has_cache then some bytes else none))
    else err (hash_mismatch (c.blake3 bytes) pack_hash)
fetch_checked c has_cache pack_hash (err e) = err (fetch_failed e)
fetch_checked c has_cache pack_hash panic = panic

-- `get_pack_with_fetcher`: whether there is a cache and, if so, what it reads for the hash, and what
-- the fetcher would give. Without a cache nothing is written.
unfoldable pub get_pack_with_fetcher :
    {E : Type 0}
    → Crypto
    → Option (Option Bytes)
    → Bytes
    → Result E Bytes
    → Result (GetError E) (Bytes × Option Bytes)
get_pack_with_fetcher c none pack_hash fetched = fetch_checked c false pack_hash fetched
get_pack_with_fetcher c (some none) pack_hash fetched = fetch_checked c true pack_hash fetched
get_pack_with_fetcher c (some (some bytes)) pack_hash fetched =
    if eqb (c.blake3 bytes) pack_hash
    then ok (bytes, none)
    else fetch_checked c true pack_hash fetched
