-- ===== src/PackCache.antt =====
-- The on-disk cache of packs, crates/freenet-git/src/pack_cache.rs.
pub mod Laws
pub mod Offline
use freenet_git.Prelude.{
  ℕ, Bool, true, false, ◌||◌, ◌&&◌, not, Option, none, some, List, [], ◌∷◌, Bytes, bytes, ◌++◌,
  if◌then◌else◌,
}
use freenet_git.BTreeMap.Order.{eqb}
use freenet_git.Crypto.{Crypto}
use freenet_git.Outcome.{Result, ok, err, panic}
use freenet_git.Signing.TipKeys.{hex_bytes}
use freenet_git.Fetch.{GetError, get_pack_with_fetcher}
use freenet_git.WsClient.Host.{Stdlib, WebApi, Answer, got, lost, Error, get_state}
use freenet_git.WsClient.Probe.{to_ascii_lowercase}
use freenet_git.Disk.{
  Disk, Io, ◌>>=◌, ◌>>◌, no_change, open_new, write_all, rename, remove_file, read_file, FilePath,
  join, location,
}

-- The root directory.
pub record PackCache : Type 0 where
  pub root : Bytes

-- `std::env::var`: `none` is a variable that is not set.
abbrev pub Environment : Type 0
Environment = Bytes → Option Bytes

unfoldable pub disabled_via_env : Environment → Bool
disabled_via_env var = elim (var (bytes "FREENET_GIT_PACK_CACHE")) [
  | none ↦ false
  | some v ↦
      let v' = to_ascii_lowercase v in
      eqb v' (bytes "off") || eqb v' (bytes "0") || eqb v' (bytes "false")
]

-- A variable that is set and not empty, made into a root, or else the next choice.
unfoldable pub root_from : Option Bytes → (Bytes → Bytes) → Option PackCache → Option PackCache
root_from none f next = next
root_from (some []) f next = next
root_from (some (b ∷ bs)) f next = some (record { root = f (b ∷ bs) })

unfoldable pub from_environment : Environment → Option PackCache
from_environment var =
    if disabled_via_env var
    then none
    else root_from (var (bytes "FREENET_GIT_PACK_CACHE_DIR")) (λ dir. dir)
        (root_from (var (bytes "XDG_CACHE_HOME")) (λ xdg. join xdg (bytes "freenet-git/packs"))
          (root_from (var (bytes "HOME"))
            (λ home. join (join home (bytes ".cache")) (bytes "freenet-git/packs")) none))

unfoldable pub path_for : PackCache → Bytes → FilePath
path_for cache hash = record { parent = some cache.root; name = hex_bytes hash ++ bytes ".pack" }

-- What a read gives: bytes of another hash are removed, whether or not that succeeds.
unfoldable pub check_read : Crypto → Bytes → Bytes → Result Bytes Bytes × Disk → Option Bytes × Disk
check_read c path hash (ok bs, d) =
    if eqb (c.blake3 bs) hash then (some bs, d) else (none, (remove_file path d).1)
check_read c path hash (err e, d) = (none, d)
check_read c path hash (panic, d) = (none, d)

unfoldable pub read : Crypto → PackCache → Bytes → Disk → Option Bytes × Disk
read c cache hash d =
    let path = location (path_for cache hash) in check_read c path hash (read_file path d)

-- The temporary file: `unique` is the text of the process id, a dot and the random suffix.
unfoldable pub tmp_for : PackCache → Bytes → Bytes → Bytes
tmp_for cache hash unique = location (record {
  parent = some cache.root;
  name = bytes "." ++ (path_for cache hash).name ++ bytes "." ++ unique ++ bytes ".tmp";
})

-- The temporary file of a failed write is removed, whether or not that succeeds.
unfoldable pub clean_up : Bytes → Result Bytes (Unit {0}) × Disk → Result Bytes (Unit {0}) × Disk
clean_up tmp (ok u, d) = (ok u, d)
clean_up tmp (err e, d) = (err e, (remove_file tmp d).1)
clean_up tmp (panic, d) = (panic, d)

-- The paths are the file's and the temporary file's; the first operation makes the directory.
unfoldable pub write_atomic : Bytes → Bytes → Bytes → Io (Unit {0})
write_atomic path tmp bs =
    no_change >> λ d. clean_up tmp ((open_new tmp >> write_all tmp bs >> rename tmp path) d)

-- Its error is only logged.
unfoldable pub write : PackCache → Bytes → Bytes → Bytes → Disk → Disk
write cache unique hash bs d =
    (write_atomic (location (path_for cache hash)) (tmp_for cache hash unique) bs d).1

-- The same with a cache from the environment, if there is one.
unfoldable pub read_default : Crypto → Environment → Bytes → Disk → Option Bytes × Disk
read_default c var hash d = elim (from_environment var) [
  | none ↦ (none, d)
  | some cache ↦ read c cache hash d
]

unfoldable pub write_default : Environment → Bytes → Bytes → Bytes → Disk → Disk
write_default var unique hash bs d = elim (from_environment var) [
  | none ↦ d
  | some cache ↦ write cache unique hash bs d
]

-- The answer of the fetcher, as the cached GET reads it.
unfoldable pub as_fetched : Answer Bytes → Result Error Bytes
as_fetched (got bs) = ok bs
as_fetched (lost e) = err e

-- What the cache reads, if there is a cache.
unfoldable pub if_cached : Environment → Option Bytes → Option (Option Bytes)
if_cached var read_bytes = elim (from_environment var) [
  | none ↦ none
  | some cache ↦ some read_bytes
]

-- Whether what the cache read is returned, and the fetcher is not called.
unfoldable pub is_hit : Crypto → Bytes → Option Bytes → Bool
is_hit c hash none = false
is_hit c hash (some bs) = eqb (c.blake3 bs) hash

-- The bytes that a GET writes to the cache go to the disk.
unfoldable pub store :
    Environment → Bytes → Bytes → Result (GetError Error) (Bytes × Option Bytes) → Disk → Disk
store var unique hash (ok (bs, some written)) d = write_default var unique hash written d
store var unique hash (ok (bs, none)) d = d
store var unique hash (err e) d = d
store var unique hash panic d = d

-- What a GET of a pack returns, the connection and the disk.
pub record Fetched : Type 0 where
  pub result : Result (GetError Error) (Bytes × Option Bytes)
  pub web_api : WebApi
  pub disk : Disk

unfoldable pub get_pack :
    Crypto → Stdlib → Environment → Bytes → Bytes → Bytes → Bytes → WebApi → Disk → Fetched
get_pack c lib var unique wasm hash wait w d =
    let id = (lib.from_params_and_code hash wasm).id in
    let (cached, d') = read_default c var hash d in
    let (answer, w') = get_state lib id false wait w in
    let result = get_pack_with_fetcher c (if_cached var cached) hash (as_fetched answer) in
    record {
      result = result;
      web_api = if is_hit c hash cached then w else w';
      disk = store var unique hash result d';
    }
