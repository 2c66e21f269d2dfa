-- ===== src/RemoteHelper/FetchLoop.antt =====
-- Which bundles a fetch downloads, crates/freenet-git/src/bin/git-remote-freenet.rs.
pub mod Livelock
use freenet_git.Prelude.{
  ℕ, zero, suc, Bool, true, false, not, ◌&&◌, ◌||◌, ◌==◌, Option, none, some, List, [], ◌∷◌, ◌++◌,
  Bytes, map, take, length, if◌then◌else◌,
}
use freenet_git.BTreeMap.{BTreeMap, get, insert, keys}
use freenet_git.Outcome.{Result, ok, err, panic, ◌>>=◌, ◌>>◌, expect, map_err}
use freenet_git.Repo.State.{RepoState, RefEntry, ObjectBundle, ObjectBundleRecord, ExtensionEntry}
use freenet_git.Signing.TipKeys.{parse_bundle_tip_extension_key}
use freenet_git.RemoteHelper.{Git, has, add, Walk, walk_unresolved_parents}

-- The loop of `collect_bundle_tip_extensions`, from the map so far; a map from bundle ids to tips.
unfoldable pub collect_from : BTreeMap Bytes → BTreeMap ExtensionEntry → BTreeMap Bytes
collect_from out [] = out
collect_from out ((key, entry) ∷ extensions) = elim (parse_bundle_tip_extension_key key) [
  | none ↦ collect_from out extensions
  | some bundle_id ↦
      collect_from (if length entry.value == 20 then insert bundle_id entry.value out else out)
        extensions
]

unfoldable pub collect_bundle_tip_extensions : RepoState → BTreeMap Bytes
collect_bundle_tip_extensions s = collect_from [] s.extensions

-- The loop of `tip_to_bundle`: a map from tips to bundle ids, of the pairs in the order that the
-- `HashMap` gives them.
unfoldable pub collect_tips : BTreeMap Bytes → List (Bytes × Bytes) → BTreeMap Bytes
collect_tips out [] = out
collect_tips out ((id, tip) ∷ tips) = collect_tips (insert tip id out) tips

-- `parse_sha1`, over the decoder of the crate `hex`.
unfoldable pub parse_sha1 : (Bytes → Option Bytes) → Bytes → Option Bytes
parse_sha1 hex_decode s = elim (hex_decode s) [
  | none ↦ none
  | some bs ↦ if length bs == 20 then some bs else none
]

-- A `HashSet` is a list without duplicates.
unfoldable pub extend : List Bytes → List Bytes → List Bytes
extend wanted [] = wanted
extend wanted (c ∷ cs) = extend (add c wanted) cs

unfoldable pub parse_wants : (Bytes → Option Bytes) → List (Bytes × Bytes) → List Bytes
parse_wants hex_decode [] = []
parse_wants hex_decode ((sha_hex, name) ∷ wants) =
    let rest = parse_wants hex_decode wants in
    elim (parse_sha1 hex_decode sha_hex) [ none ↦ rest | some c ↦ c ∷ rest ]

unfoldable pub targets : BTreeMap RefEntry → List Bytes
targets [] = []
targets ((name, entry) ∷ refs) = entry.target ∷ targets refs

-- The wants, or the targets of all refs where there are none.
unfoldable pub seed : (Bytes → Option Bytes) → List (Bytes × Bytes) → RepoState → List Bytes
seed hex_decode wants s = choose (extend [] (parse_wants hex_decode wants))
  where
    choose : List Bytes → List Bytes
    choose [] = extend [] (targets s.refs)
    choose (c ∷ cs) = c ∷ cs

-- The bundles without a tip.
unfoldable pub legacy_ids : BTreeMap Bytes → List Bytes → List Bytes
legacy_ids bundle_tips [] = []
legacy_ids bundle_tips (id ∷ ids) =
    let rest = legacy_ids bundle_tips ids in
    elim (get id bundle_tips) [ none ↦ id ∷ rest | some _ ↦ rest ]

pub data FetchFailure : Type 0 where
  -- A download, an installation or a question to git that failed.
  failed : Bytes → FetchFailure
  -- The number of commits that no bundle advertises, and the first of them.
  could_not_converge : ℕ → List Bytes → FetchFailure

-- The loop's variables, and the git repository.
pub record Fetching (G : Type 0) : Type 0 where
  pub wanted : List Bytes
  pub walked : List Bytes
  pub downloaded : List Bytes
  pub git : G

-- The bundles of the wanted commits that were not downloaded.
unfoldable pub to_download : BTreeMap Bytes → List Bytes → List Bytes → List Bytes
to_download tip_to_bundle [] downloaded = []
to_download tip_to_bundle (c ∷ wanted) downloaded =
    let rest = to_download tip_to_bundle wanted downloaded in
    elim (get c tip_to_bundle) [
      | none ↦ rest
      | some id ↦ if has id downloaded then rest else id ∷ rest
    ]

unfoldable pub any_resolvable : BTreeMap Bytes → List Bytes → Bool
any_resolvable tip_to_bundle [] = false
any_resolvable tip_to_bundle (c ∷ cs) = elim (get c tip_to_bundle) [
  | some _ ↦ true
  | none ↦ any_resolvable tip_to_bundle cs
]

-- The questions to a repository, the installation of a pack, the download of a bundle, and the maps
-- from a tip to its bundle and from a bundle's id to its record. Of bundles with one tip, the source
-- takes any; which, is the map's.
module _ {G : Type 0} (ask : G → Git) (install_pack : Bytes → G → Result Bytes G)
    (download_bundle : ObjectBundle → Result Bytes Bytes) (tip_to_bundle : BTreeMap Bytes)
    (index : BTreeMap ObjectBundleRecord) where
  unfoldable pub download_all : List Bytes → Fetching G → Result FetchFailure (Fetching G)
  download_all [] s = ok s
  download_all (id ∷ ids) s = do
    entry ← expect (get id index)
    pack_bytes ← map_err failed (download_bundle entry.bundle)
    git ← map_err failed (install_pack pack_bytes s.git)
    download_all ids (record s { downloaded = id ∷ s.downloaded; git = git })

  -- What is done with the unresolved commits, when no bundle is left to download.
  unfoldable pub after_walk :
      Fetching G
      → Option (Result Bytes Walk)
      → (Fetching G → Option (Result FetchFailure (Fetching G)))
      → Option (Result FetchFailure (Fetching G))
  after_walk s none again = none
  after_walk s (some (err e)) again = some (err (failed e))
  after_walk s (some panic) again = some panic
  after_walk s (some (ok w)) again = resolve w.unresolved
    where
      resolve : List Bytes → Option (Result FetchFailure (Fetching G))
      resolve [] = some (ok (record s { walked = w.walked }))
      resolve (c ∷ cs) =
          if any_resolvable tip_to_bundle (c ∷ cs)
          then again (record s { wanted = extend s.wanted (c ∷ cs); walked = w.walked })
          else some (err (could_not_converge (length (c ∷ cs)) (take 3 (c ∷ cs))))

  unfoldable pub after_download :
      Result FetchFailure (Fetching G)
      → (Fetching G → Option (Result FetchFailure (Fetching G)))
      → Option (Result FetchFailure (Fetching G))
  after_download (ok s) again = again s
  after_download (err e) again = some (err e)
  after_download panic again = some panic

  unfoldable pub round :
      ℕ
      → List Bytes
      → Fetching G
      → (Fetching G → Option (Result FetchFailure (Fetching G)))
      → Option (Result FetchFailure (Fetching G))
  round walk_fuel [] s again =
      after_walk s (walk_unresolved_parents (ask s.git) walk_fuel s.wanted s.walked) again
  round walk_fuel (id ∷ ids) s again = after_download (download_all (id ∷ ids) s) again

  -- The loop, with fuel for its rounds and for each search; `none` is a loop that goes on after it.
  unfoldable pub fetch_loop : ℕ → ℕ → Fetching G → Option (Result FetchFailure (Fetching G))
  fetch_loop walk_fuel zero s = none
  fetch_loop walk_fuel (suc fuel) s =
      round walk_fuel (to_download tip_to_bundle s.wanted s.downloaded) s
        (λ s'. fetch_loop walk_fuel fuel s')

  -- Both phases: the bundles without a tip, then the loop from the seed.
  unfoldable pub fetch_bundles :
      ℕ → ℕ → BTreeMap Bytes → List Bytes → G → Option (Result FetchFailure (Fetching G))
  fetch_bundles walk_fuel fuel bundle_tips seeds git =
      after_download
        (download_all (legacy_ids bundle_tips (keys index))
          (record { wanted = seeds; walked = []; downloaded = []; git = git }))
        (λ s. fetch_loop walk_fuel fuel s)

-- The fetch from the state that was read: the order is the one in which the program goes over the
-- map of the tips.
unfoldable pub handle_fetch :
    {G : Type 0}
    → (G → Git)
    → (Bytes → G → Result Bytes G)
    → (ObjectBundle → Result Bytes Bytes)
    → (Bytes → Option Bytes)
    → (BTreeMap Bytes → List (Bytes × Bytes))
    → ℕ
    → ℕ
    → List (Bytes × Bytes)
    → RepoState
    → G
    → Option (Result FetchFailure (Fetching G))
handle_fetch ask install_pack download_bundle hex_decode order walk_fuel fuel wants state git =
    let bundle_tips = collect_bundle_tip_extensions state in
    fetch_bundles ask install_pack download_bundle (collect_tips [] (order bundle_tips))
      state.object_index walk_fuel fuel bundle_tips (seed hex_decode wants state) git
