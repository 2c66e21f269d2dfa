-- ===== src/PackCache/Offline.antt =====
-- A pack that was fetched once is served from the cache, crates/freenet-git/src/pack_cache.rs and
-- crates/freenet-git/src/wsclient.rs.
use freenet_git.Prelude.{
  ◌≡◌, refl, ◌∙◌, ap, sym, ◌⊎◌, inl, inr, true, false, Option, none, some, [], Bytes, bytes, arith,
  Bool-cases, Option-cases,
}
use freenet_git.BTreeMap.Order.{eqb, eqb→eq, eqb_refl}
use freenet_git.Crypto.{Crypto}
use freenet_git.Outcome.{Result, ok, err}
use freenet_git.Fetch.{GetError, get_pack_with_fetcher}
use freenet_git.Fetch.Cache.{fetch_checked-hash}
use freenet_git.WsClient.Host.{Stdlib, WebApi, Error, get_state}
use freenet_git.Disk.{
  Contents, Disk, and_then, set, no_change, operation, run, open_new, write_all, rename,
  remove_file, read_file, if_absent, if_present, location,
}
use freenet_git.Disk.Atomic.{set_same, remove_file-Touches}
use freenet_git.Disk.Read.{Quiet, read_file_present, remove_file-Quiet}
use freenet_git.PackCache.{
  PackCache, Environment, from_environment, path_for, check_read, read, read_default, tmp_for,
  clean_up, write_atomic, write, write_default, as_fetched, is_hit, if_cached, store, get_pack,
}
use freenet_git.PackCache.Laws.{path_for-ne-tmp_for, read_held}

-- An entry of the cache that holds these bytes, under their hash, on a disk without faults.
record Holds (c : Crypto) (cache : PackCache) (hash bs : Bytes) (d : Disk) : Type 0 where
  quiet : Quiet d
  held : d.contents (location (path_for cache hash)) ≡ some bs
  hashed : c.blake3 bs ≡ hash

-- The disk after a write that meets no fault and finds its temporary file free.
write_atomic_free :
    (path tmp bs : Bytes) (f : Contents)
    → f tmp ≡ none
    → (write_atomic path tmp bs (record { contents = f; faults = [] })).1 ≡ record {
      contents = set path (some bs) (set tmp none (set tmp (some bs) (set tmp (some []) f)));
      faults = [];
    }
unfolding write_atomic no_change open_new write_all rename operation run and_then if_absent
    if_present clean_up
write_atomic_free path tmp bs f free = rw (free, set_same tmp (some bs) (set tmp (some []) f))

write-Holds :
    (c : Crypto) (cache : PackCache) (unique hash bs : Bytes) (d : Disk)
    → Quiet d
    → d.contents (tmp_for cache hash unique) ≡ none
    → c.blake3 bs ≡ hash
    → Holds c cache hash bs (write cache unique hash bs d)
unfolding write
write-Holds c cache unique hash bs d q free h =
    let path = location (path_for cache hash) in
    let tmp = tmp_for cache hash unique in
    let quiet : d ≡ record { contents = d.contents; faults = [] } =
      ap (λ es. record { contents = d.contents; faults = es }) q in
    let e =
      ap (λ v. (write_atomic path tmp bs v).1) quiet
      ∙ write_atomic_free path tmp bs d.contents free in
    record {
      quiet = ap (λ v. v.faults) e;
      held =
          ap (λ v. v.contents path) e
          ∙ set_same path (some bs)
              (set tmp none (set tmp (some bs) (set tmp (some []) d.contents)));
      hashed = h;
    }

-- What a read gives and leaves where no operation fails.
data Reads (c : Crypto) (cache : PackCache) (hash : Bytes) (d : Disk)
    : Option Bytes × Disk → Type 0 where
  hit : (bs : Bytes) → Holds c cache hash bs d → Reads c cache hash d (some bs, d)
  miss : Reads c cache hash d (none, d)
  evicted :
      (d' : Disk)
      → Quiet d'
      → ((k : Bytes) → (k ≡ location (path_for cache hash)) ⊎ (d'.contents k ≡ d.contents k))
      → Reads c cache hash d (none, d')

read_file-missing :
    (path : Bytes) (d : Disk)
    → d.contents path ≡ none
    → (e : Bytes) × (read_file path d ≡ (err e, d))
unfolding read_file if_present
read_file-missing path d h = (bytes "not found", rw (h, read_file))

read-Reads :
    (c : Crypto) (cache : PackCache) (hash : Bytes) (d : Disk)
    → Quiet d
    → Reads c cache hash d (read c cache hash d)
unfolding read check_read
read-Reads c cache hash d q =
    let path = location (path_for cache hash) in
    elim (Option-cases (d.contents path)) [
      | inl missing ↦ let (e, same) = read_file-missing path d missing in rw same miss
      | inr (bs, held) ↦ elim (Bool-cases (eqb (c.blake3 bs) hash)) [
        | inl good ↦
            let hashed = eqb→eq (c.blake3 bs) hash good in
            rw (read_file_present path bs d q held, good)
              (hit bs (record { quiet = q; held = held; hashed = hashed }))
        | inr bad ↦
            rw (read_file_present path bs d q held, bad)
              (evicted (remove_file path d).1 (remove_file-Quiet path d q)
                ((remove_file-Touches path).elsewhere d))
      ]
    ]

write_default_at :
    (cache : PackCache) (var : Environment) (unique hash bs : Bytes) (d : Disk)
    → from_environment var ≡ some cache
    → write_default var unique hash bs d ≡ write cache unique hash bs d
unfolding write_default
write_default_at cache var unique hash bs d at = rw (at, write_default)

read_default_at :
    (c : Crypto) (cache : PackCache) (var : Environment) (hash : Bytes) (d : Disk)
    → from_environment var ≡ some cache
    → read_default c var hash d ≡ read c cache hash d
unfolding read_default
read_default_at c cache var hash d at = rw (at, read_default)

if_cached_at :
    (cache : PackCache) (var : Environment) (read_bytes : Option Bytes)
    → from_environment var ≡ some cache
    → if_cached var read_bytes ≡ some read_bytes
unfolding if_cached
if_cached_at cache var read_bytes at = rw (at, if_cached)

hit_same :
    (x bs : Bytes) (written : Option Bytes) (r : Result (GetError Error) (Bytes × Option Bytes))
    → ok (x, none) ≡ r
    → r ≡ ok (bs, written)
    → (x ≡ bs) × (none ≡ written)
hit_same x bs written r h g = ground arith

-- After a GET that succeeds, the cache holds what it returned.
stored-Holds :
    (c : Crypto) (cache : PackCache) (var : Environment) (unique hash bs : Bytes)
    (answer : Result Error Bytes) (written : Option Bytes) (d : Disk) (r : Option Bytes × Disk)
    → from_environment var ≡ some cache
    → Quiet d
    → d.contents (tmp_for cache hash unique) ≡ none
    → Reads c cache hash d r
    → get_pack_with_fetcher c (some r.0) hash answer ≡ ok (bs, written)
    → Holds c cache hash bs (store var unique hash (ok (bs, written)) r.1)
unfolding get_pack_with_fetcher store
stored-Holds c cache var unique hash bs answer written d _ at q free (hit x h) e =
    let same : eqb (c.blake3 x) hash ≡ true = rw (h.hashed) (eqb_refl hash) in
    let (e_bytes, e_none) = hit_same x bs written _ refl (rw same at e) in
    rw (← e_none) (rw (← e_bytes) h)
stored-Holds c cache var unique hash bs answer written d _ at q free miss e =
    let (hashed, wrote) = fetch_checked-hash c true hash answer bs written e in
    rw (wrote, write_default_at cache var unique hash bs d at)
      (write-Holds c cache unique hash bs d q free hashed)
stored-Holds c cache var unique hash bs answer written d _ at q free (evicted d' q' same) e =
    let (hashed, wrote) = fetch_checked-hash c true hash answer bs written e in
    let free' : d'.contents (tmp_for cache hash unique) ≡ none =
      elim (same (tmp_for cache hash unique)) [
        | inl is_path ↦ absurd (path_for-ne-tmp_for cache hash unique (sym is_path))
        | inr unchanged ↦ unchanged ∙ free
      ] in
    rw (wrote, write_default_at cache var unique hash bs d' at)
      (write-Holds c cache unique hash bs d' q' free' hashed)

-- A held pack is served without the network.
get_pack_held :
    (c : Crypto) (lib : Stdlib) (cache : PackCache) (var : Environment)
    (unique wasm hash wait bs : Bytes) (w : WebApi) (d : Disk)
    → from_environment var ≡ some cache
    → Holds c cache hash bs d
    → get_pack c lib var unique wasm hash wait w d
      ≡ record { result = ok (bs, none); web_api = w; disk = d }
unfolding get_pack get_pack_with_fetcher is_hit store
get_pack_held c lib cache var unique wasm hash wait bs w d at h =
    let same : eqb (c.blake3 bs) hash ≡ true = rw (h.hashed) (eqb_refl hash) in
    let read_it =
      read_default_at c cache var hash d at ∙ read_held c cache hash bs d h.quiet h.held h.hashed in
    rw (read_it, if_cached_at cache var (some bs) at, same)

-- Where the environment gives a cache, no operation on the disk fails and the name of the temporary
-- file is free: if a GET of a pack succeeds, from the cache or the network, then every later GET of
-- the pack on the disk that it leaves returns the same bytes and leaves the connection untouched,
-- whatever the connection would give.
pub get_pack-get_pack :
    (c : Crypto) (lib : Stdlib) (cache : PackCache) (var : Environment)
    (unique wasm hash wait bs : Bytes) (written : Option Bytes) (w : WebApi) (d : Disk)
    (unique' wasm' wait' : Bytes) (w' : WebApi)
    → from_environment var ≡ some cache
    → Quiet d
    → d.contents (tmp_for cache hash unique) ≡ none
    → (get_pack c lib var unique wasm hash wait w d).result ≡ ok (bs, written)
    → let d' = (get_pack c lib var unique wasm hash wait w d).disk in
      get_pack c lib var unique' wasm' hash wait' w' d'
      ≡ record { result = ok (bs, none); web_api = w'; disk = d' }
unfolding get_pack
get_pack-get_pack c lib cache var unique wasm hash wait bs written w d unique' wasm' wait' w' at q
      free e =
    let (answer, v) = get_state lib (lib.from_params_and_code hash wasm).id false wait w in
    let reads : Reads c cache hash d (read_default c var hash d) =
      rw (read_default_at c cache var hash d at) (read-Reads c cache hash d q) in
    let holds =
      stored-Holds c cache var unique hash bs (as_fetched answer) written d
        (read_default c var hash d) at q free reads
        (rw (if_cached_at cache var (read_default c var hash d).0 at) at e) in
    get_pack_held c lib cache var unique' wasm' hash wait' bs w' _ at (rw e holds)
