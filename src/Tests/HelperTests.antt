-- ===== src/Tests/HelperTests.antt =====
-- The theorems on the git remote helper and the rescue, at concrete values.
use freenet_git.Prelude.{
  ltb, replicate, List, strip_prefix, ◌+◌, ◌≤◌, ◌≡◌, ◌↔◌, refl, true, false, none, some, [], ◌∷◌,
  Bytes, bytes, length, Among, arith, if◌then◌else◌, ◌||◌,
}
use freenet_git.BTreeMap.Order.{cmp, eqb, eqb→eq}
use freenet_git.Outcome.{Result, ok, err}
use freenet_git.RemoteHelper.{
  Git, has, add, visit, visit_commit, visit_object, visit_local, Walk, push_new, next, on_visit,
  walk_loop, walk_unresolved_parents,
}
use freenet_git.RemoteHelper.Exact.{IsMissing, Leads, walk_unresolved_parents-Leads}
use freenet_git.RemoteHelper.Total.{left, walk_unresolved_parents_total}
use freenet_git.BTreeMap.{get, insert}
use freenet_git.Signing.TipKeys.{
  bundle_tip_extension_key, hex_bytes, hex_digit, parse_bundle_tip_extension_key, parse_pairs,
  from_str_radix, digit,
}
use freenet_git.Repo.State.{RepoState, ObjectBundleRecord, single_pack}
use freenet_git.RemoteHelper.FetchLoop.{
  handle_fetch, fetch_bundles, round, after_walk, after_download, download_all, to_download,
  any_resolvable, legacy_ids, seed, targets, parse_wants, parse_sha1, extend, collect_tips,
  collect_bundle_tip_extensions, collect_from, fetch_loop,
}
use freenet_git.RemoteHelper.FetchLoop.Livelock.{fetch_loop_livelock}
use freenet_git.Rescue.{
  partition_bundles_for_rescue, partition_loop, reachable_bundle_ids, filter_ids, is_reachable,
  is_target, contains_id,
}
use freenet_git.Rescue.Partition.{Selected, IsCurrent, partition_bundles_for_rescue-Selected}
use freenet_git.Tests.{state_one}

-- A merge `m` of `a` and `b`; `b` is local and its parent `r` is not, nor is `a`.
abbrev test_git : Git
test_git = record {
  commit_exists = λ c. ok (eqb c (bytes "m") || eqb c (bytes "b"));
  any_object_exists = λ c. ok false;
  git_commit_parents = λ c.
      if eqb c (bytes "m")
      then ok (bytes "a" ∷ bytes "b" ∷ [])
      else if eqb c (bytes "b")
      then ok (bytes "r" ∷ [])
      else err (bytes "no commit");
}

abbrev walked : Walk
walked = record {
  to_visit = [];
  walked = bytes "b" ∷ bytes "m" ∷ [];
  unresolved = bytes "a" ∷ bytes "r" ∷ [];
}

walk_run : walk_unresolved_parents test_git 9 (bytes "m" ∷ []) [] ≡ some (ok walked)
unfolding walk_unresolved_parents walk_loop on_visit visit visit_commit visit_object visit_local has
    push_new next add eqb cmp
walk_run = refl

walk_unresolved_parents-Leads_example :
    Among (bytes "r") walked.unresolved
    ↔ (Leads test_git (bytes "m" ∷ []) (bytes "r") × IsMissing test_git (bytes "r"))
walk_unresolved_parents-Leads_example =
    walk_unresolved_parents-Leads test_git 9 (bytes "m" ∷ []) walked (bytes "r") walk_run

locals : (x : Bytes) → test_git.commit_exists x ≡ ok true → Among x (bytes "m" ∷ bytes "b" ∷ [])
locals x h = ground (arith, eqb→eq x (bytes "m"), eqb→eq x (bytes "b"))

enough : length {A = Bytes} (bytes "m" ∷ []) + left test_git [] (bytes "m" ∷ bytes "b" ∷ []) ≤ 4
unfolding has eqb cmp
enough = omega arith

walk_unresolved_parents_total_example :
    (r : Result Bytes Walk) × (walk_unresolved_parents test_git 4 (bytes "m" ∷ []) [] ≡ some r)
walk_unresolved_parents_total_example =
    walk_unresolved_parents_total test_git 4 (bytes "m" ∷ []) [] (bytes "m" ∷ bytes "b" ∷ []) locals
      enough

abbrev bundle_record : ObjectBundleRecord
bundle_record = record {
  bundle = single_pack (bytes "hash") 7;
  added_by = [];
  auth_epoch = 0;
  signature = [];
}

-- Two bundles, of which the second has the tip that a ref points at.
abbrev mirrored : RepoState
mirrored = record state_one {
  object_index = (bytes "A", bundle_record) ∷ (bytes "B", bundle_record) ∷ [];
  extensions =
      (bytes "bundle-tip:41", record { value = bytes "x"; update_seq = 1; signature = [] })
      ∷ (bytes "bundle-tip:42", record { value = bytes "b"; update_seq = 1; signature = [] })
      ∷ [];
}

only_second : partition_bundles_for_rescue mirrored true ≡ ((bytes "B", bundle_record) ∷ [], 1)
unfolding partition_bundles_for_rescue partition_loop reachable_bundle_ids filter_ids is_reachable
    is_target contains_id bundle_tip_extension_key hex_bytes hex_digit get eqb cmp
only_second = refl

partition_bundles_for_rescue-Selected_example :
    Selected
      (IsCurrent mirrored)
      mirrored.object_index
      (partition_bundles_for_rescue mirrored true).0
      (partition_bundles_for_rescue mirrored true).1
    × (partition_bundles_for_rescue mirrored false ≡ (mirrored.object_index, 0))
partition_bundles_for_rescue-Selected_example = partition_bundles_for_rescue-Selected mirrored

-- `a` is listed for the bundle `A`, whose pack holds another commit.
fetch_loop_livelock_example :
    fetch_loop
      (λ packs. test_git)
      (λ pack_bytes packs. ok (pack_bytes ∷ packs))
      (λ bundle. ok (bytes "pack of another commit"))
      ((bytes "a", bytes "A") ∷ [])
      ((bytes "A", bundle_record) ∷ [])
      5
      40
      (record { wanted = bytes "a" ∷ []; walked = []; downloaded = []; git = [] })
    ≡ none
unfolding get has eqb cmp
fetch_loop_livelock_example =
    fetch_loop_livelock (λ packs. test_git) (λ pack_bytes packs. ok (pack_bytes ∷ packs))
      (λ bundle. ok (bytes "pack of another commit")) ((bytes "a", bytes "A") ∷ [])
      ((bytes "A", bundle_record) ∷ []) 4 40 (bytes "a") (bytes "A") [] [] []
      (bytes "pack of another commit" ∷ []) bundle_record (bytes "pack of another commit") refl refl
      refl refl refl (refl, refl) refl

abbrev id_32 : Bytes
id_32 = replicate 32 65

abbrev tip_20 : Bytes
tip_20 = replicate 20 97

-- The only bundle and its tip.
abbrev tipped : RepoState
tipped = record state_one {
  object_index = (id_32, bundle_record) ∷ [];
  extensions =
      (bundle_tip_extension_key id_32, record { value = tip_20; update_seq = 1; signature = [] })
      ∷ [];
}

-- A repository that has the commit, without parents, as soon as a pack is installed.
abbrev packs_git : List Bytes → Git
packs_git packs = record {
  commit_exists = λ c. ok (ltb 0 (length packs));
  any_object_exists = λ c. ok false;
  git_commit_parents = λ c. ok [];
}

-- The bundle of the wanted tip is downloaded, and the fetch ends.
fetch_run :
    handle_fetch packs_git
      (λ pack_bytes packs. ok (pack_bytes ∷ packs))
      (λ bundle. ok (bytes "pack"))
      some
      (λ tips. tips)
      9
      9
      ((tip_20, bytes "refs/heads/main") ∷ [])
      tipped
      []
    ≡ some (
        ok (record {
          wanted = tip_20 ∷ [];
          walked = tip_20 ∷ [];
          downloaded = id_32 ∷ [];
          git = bytes "pack" ∷ [];
        }))
unfolding handle_fetch fetch_bundles fetch_loop round after_walk after_download download_all
    to_download any_resolvable legacy_ids seed targets parse_wants parse_sha1 extend collect_tips
    collect_bundle_tip_extensions collect_from parse_bundle_tip_extension_key parse_pairs
    from_str_radix digit bundle_tip_extension_key hex_bytes hex_digit strip_prefix
    walk_unresolved_parents walk_loop on_visit visit visit_commit visit_object visit_local has
    push_new next add get insert eqb cmp
fetch_run = refl
