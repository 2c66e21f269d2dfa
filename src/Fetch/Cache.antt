-- ===== src/Fetch/Cache.antt =====
-- The cache and the network are both checked against the hash asked for.
use freenet_git.Prelude.{
  ◌≡◌, ◌≢◌, Bytes, Bool, true, false, Bool-cases, if◌then◌else◌, Option, none, some, ◌⊎◌, inl, inr,
  arith,
}
use freenet_git.BTreeMap.Order.{eqb, eqb→eq}
use freenet_git.Crypto.{Crypto}
use freenet_git.Outcome.{Result, ok, err, panic}
use freenet_git.Fetch.{fetch_checked, get_pack_with_fetcher}

-- What a fetch writes: the bytes if there is a cache.
abbrev pub to_write : Bool → Bytes → Option Bytes
to_write has_cache out = if has_cache then some out else none

pub fetch_checked-hash :
    {E : Type 0} (c : Crypto) (has_cache : Bool) (pack_hash : Bytes) (fetched : Result E Bytes)
    (out : Bytes) (w : Option Bytes)
    → fetch_checked c has_cache pack_hash fetched ≡ ok (out, w)
    → (c.blake3 out ≡ pack_hash) × (w ≡ to_write has_cache out)
unfolding fetch_checked
fetch_checked-hash c has_cache hash (ok bytes) out w h = elim (Bool-cases has_cache) [
  | inl here ↦ ground (arith, eqb→eq (c.blake3 bytes) hash)
  | inr nowhere ↦ ground (arith, eqb→eq (c.blake3 bytes) hash)
]
fetch_checked-hash c has_cache hash (err e) out w h = absurd (ground arith)
fetch_checked-hash c has_cache hash panic out w h = absurd (ground arith)

-- Whether there is a cache or not, whatever it holds and whatever the network answers: bytes that are
-- returned have the hash asked for, nothing else is ever written to the cache, and nothing is written
-- where there is none.
pub get_pack_with_fetcher-hash :
    {E : Type 0} (c : Crypto) (cached : Option (Option Bytes)) (pack_hash : Bytes)
    (fetched : Result E Bytes) (out : Bytes) (written : Option Bytes)
    → get_pack_with_fetcher c cached pack_hash fetched ≡ ok (out, written)
    → (c.blake3 out ≡ pack_hash) × ((written ≡ none) ⊎ ((written ≡ some out) × (cached ≢ none)))
unfolding get_pack_with_fetcher
get_pack_with_fetcher-hash c none hash fetched out w h =
    let (p, q) = fetch_checked-hash c false hash fetched out w h in (p, inl q)
get_pack_with_fetcher-hash c (some none) hash fetched out w h =
    let (p, q) = fetch_checked-hash c true hash fetched out w h in (p, inr (q, λ e. ground arith))
get_pack_with_fetcher-hash c (some (some bytes)) hash fetched out w h =
    elim (Bool-cases (eqb (c.blake3 bytes) hash)) [
      | inl same ↦ ground (arith, eqb→eq (c.blake3 bytes) hash)
      | inr differs ↦
          let (p, q) = fetch_checked-hash c true hash fetched out w (rw differs at h) in
          (p, inr (q, λ e. ground arith))
    ]
