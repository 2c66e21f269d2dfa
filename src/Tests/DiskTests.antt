-- ===== src/Tests/DiskTests.antt =====
-- The theorems on bundle files and the pack cache, at concrete values.
use freenet_git.Prelude.{◌≡◌, refl, none, some, [], ◌∷◌, Bytes, bytes, if◌then◌else◌}
use freenet_git.BTreeMap.Order.{cmp, eqb}
use freenet_git.Outcome.{ok}
use freenet_git.Fetch.{fetch_checked, get_pack_with_fetcher}
use freenet_git.Disk.{
  Disk, set, and_then, if_present, run, operation, no_change, open_truncate, write_all, rename,
  read_file, FilePath, join, ends_with_slash, location, parent_or_dot,
}
use freenet_git.Disk.Atomic.{Replaces}
use freenet_git.Identity.{derive_key, fresh, from_slice, associated_data, seal}
use freenet_git.Identity.File.{
  tmp_location, write_atomic, create_parent, write_sealed, after_parent, write_bundle, read_bundle,
}
use freenet_git.Identity.File.Replace.{write_atomic-Replaces, read_bundle-write_bundle}
use freenet_git.PackCache
use freenet_git.PackCache.{
  Environment, from_environment, disabled_via_env, root_from, path_for, check_read, read,
  read_default, tmp_for, as_fetched, if_cached, get_pack,
}
use freenet_git.PackCache.Offline.{get_pack-get_pack}
use freenet_git.WsClient.Host.{
  Stdlib, get_response, message, WebApi, next_error, send, finish, await, request, get_answer,
  dispatch_get_response, get_state,
}
use freenet_git.Tests.{test_crypto}
use freenet_git.Tests.IdentityTests.{
  only_key, test_libraries, test_libraries-Faithful, zero_nonce, zero_salt, encode_fields,
  encode_envelope, is_canonical,
}

abbrev bundle_file : FilePath
bundle_file = record { parent = some (bytes "dir"); name = bytes "bundle" }

-- The write fails after one byte.
abbrev full_disk : Disk
full_disk = record {
  contents = λ _. some (bytes "old");
  faults = none ∷ some (record { error = bytes "disk full"; written = 1 }) ∷ [];
}

write_atomic-Replaces_example :
    Replaces
      (location bundle_file)
      (tmp_location bundle_file)
      (bytes "new")
      full_disk
      (write_atomic bundle_file (bytes "new") full_disk).0
      (write_atomic bundle_file (bytes "new") full_disk).1
write_atomic-Replaces_example = write_atomic-Replaces bundle_file (bytes "new") full_disk

abbrev blank_disk : Disk
blank_disk = record { contents = λ _. none; faults = [] }

abbrev bundle_written : Disk
bundle_written =
    (write_bundle test_libraries zero_salt zero_nonce (only_key (bytes "key")) [] bundle_file
      blank_disk).1

wrote :
    write_bundle test_libraries zero_salt zero_nonce
      (only_key (bytes "key"))
      []
      bundle_file
      blank_disk
    ≡ (ok tt, bundle_written)
unfolding write_bundle after_parent create_parent write_sealed write_atomic tmp_location location
    parent_or_dot seal derive_key fresh from_slice associated_data encode_fields encode_envelope
    is_canonical eqb cmp no_change open_truncate write_all rename if_present operation run and_then
    set
wrote = refl

no_faults : bundle_written.faults ≡ []
unfolding write_bundle after_parent create_parent write_sealed write_atomic tmp_location location
    parent_or_dot seal derive_key fresh from_slice associated_data encode_fields encode_envelope
    is_canonical eqb cmp no_change open_truncate write_all rename if_present operation run and_then
    set
no_faults = refl

read_bundle-write_bundle_example :
    (read_bundle test_libraries bundle_file [] bundle_written).0 ≡ ok (only_key (bytes "key"))
read_bundle-write_bundle_example =
    read_bundle-write_bundle test_libraries zero_salt zero_nonce (only_key (bytes "key")) []
      bundle_file blank_disk bundle_written test_libraries-Faithful wrote no_faults

abbrev home_only : Environment
home_only name = if eqb name (bytes "HOME") then some (bytes "/home/u") else none

abbrev home_cache : PackCache.PackCache
home_cache = record { root = bytes "/home/u/.cache/freenet-git/packs" }

cache_found : from_environment home_only ≡ some home_cache
unfolding from_environment disabled_via_env root_from join ends_with_slash eqb cmp
cache_found = refl

abbrev cache_stdlib : Stdlib
cache_stdlib = record {
  from_params_and_code = λ p w. record { id = p; code_hash = w };
  from_code = λ w. w;
  show_id = λ i. i;
}

abbrev pack_hash : Bytes
pack_hash = test_crypto.blake3 (bytes "pack")

abbrev serving : WebApi
serving = record {
  sent = [];
  sends = [];
  recvs = message (get_response (record { id = pack_hash; code_hash = [] }) (bytes "pack")) ∷ [];
}

abbrev offline : WebApi
offline = record { sent = []; sends = some (bytes "closed") ∷ []; recvs = [] }

fetched_once :
    (get_pack test_crypto cache_stdlib home_only
      (bytes "1.ab")
      (bytes "w")
      pack_hash
      (bytes "1s")
      serving
      blank_disk).result
    ≡ ok (bytes "pack", some (bytes "pack"))
unfolding get_pack if_cached get_pack_with_fetcher fetch_checked as_fetched read_default read
    check_read read_file if_present from_environment disabled_via_env root_from join ends_with_slash
    get_state request send next_error finish await get_answer dispatch_get_response eqb cmp
fetched_once = refl

abbrev after_fetch : Disk
after_fetch =
    (get_pack test_crypto cache_stdlib home_only (bytes "1.ab") (bytes "w") pack_hash (bytes "1s")
      serving blank_disk).disk

get_pack-get_pack_example :
    get_pack test_crypto cache_stdlib home_only
      (bytes "2.cd")
      (bytes "w")
      pack_hash
      (bytes "1s")
      offline
      after_fetch
    ≡ record { result = ok (bytes "pack", none); web_api = offline; disk = after_fetch }
get_pack-get_pack_example =
    get_pack-get_pack test_crypto cache_stdlib home_cache home_only (bytes "1.ab") (bytes "w")
      pack_hash (bytes "1s") (bytes "pack") (some (bytes "pack")) serving blank_disk (bytes "2.cd")
      (bytes "w") (bytes "1s") offline cache_found refl refl fetched_once
