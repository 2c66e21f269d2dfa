-- ===== src/RemoteHelper/FetchLoop/Livelock.antt =====
-- The loop of a fetch when a bundle that was downloaded lacks the tip that it is listed under,
-- crates/freenet-git/src/bin/git-remote-freenet.rs.
use freenet_git.Prelude.{
  ℕ, zero, suc, ◌≡◌, refl, true, false, none, some, List, [], ◌∷◌, Bytes, arith,
}
use freenet_git.BTreeMap.{BTreeMap, get}
use freenet_git.BTreeMap.Order.{eqb_refl}
use freenet_git.Outcome.{Result, ok}
use freenet_git.Repo.State.{ObjectBundle, ObjectBundleRecord}
use freenet_git.RemoteHelper.{
  Git, has, add, missing, visit, visit_commit, visit_object, next, on_visit, walk_loop,
  walk_unresolved_parents,
}
use freenet_git.RemoteHelper.Exact.{IsMissing}
use freenet_git.RemoteHelper.FetchLoop.{
  to_download, any_resolvable, extend, after_walk, round, fetch_loop, after_download, download_all,
}

visit-IsMissing :
    (git : Git) (c : Bytes) (walked : List Bytes)
    → IsMissing git c
    → has c walked ≡ false
    → visit git c walked ≡ ok missing
unfolding visit visit_commit visit_object
visit-IsMissing git c walked (absent, no_object) new = simp (new, absent, no_object)

-- A search from a missing commit finds it, and changes nothing.
walk_unresolved_parents-IsMissing :
    (git : Git) (n : ℕ) (c : Bytes) (walked : List Bytes)
    → IsMissing git c
    → has c walked ≡ false
    → walk_unresolved_parents git (suc n) (c ∷ []) walked
      ≡ some (ok (record { to_visit = []; walked = walked; unresolved = c ∷ [] }))
unfolding walk_unresolved_parents walk_loop on_visit next add has
walk_unresolved_parents-IsMissing git n c walked gone new =
    rw (visit-IsMissing git c walked gone new)

to_download-has :
    (tip_to_bundle : BTreeMap Bytes) (c id : Bytes) (downloaded : List Bytes)
    → get c tip_to_bundle ≡ some id
    → has id downloaded ≡ true
    → to_download tip_to_bundle (c ∷ []) downloaded ≡ []
unfolding to_download
to_download-has tip_to_bundle c id downloaded listed done = ground (arith, listed, done)

to_download-new :
    (tip_to_bundle : BTreeMap Bytes) (c id : Bytes) (downloaded : List Bytes)
    → get c tip_to_bundle ≡ some id
    → has id downloaded ≡ false
    → to_download tip_to_bundle (c ∷ []) downloaded ≡ id ∷ []
unfolding to_download
to_download-new tip_to_bundle c id downloaded listed new = ground (arith, listed, new)

has_first : (c : Bytes) (xs : List Bytes) → has c (c ∷ xs) ≡ true
unfolding has
has_first c xs = rw (eqb_refl c)

any_resolvable-get :
    (tip_to_bundle : BTreeMap Bytes) (c id : Bytes)
    → get c tip_to_bundle ≡ some id
    → any_resolvable tip_to_bundle (c ∷ []) ≡ true
unfolding any_resolvable
any_resolvable-get tip_to_bundle c id listed = ground (arith, listed)

extend_self : (c : Bytes) → extend (c ∷ []) (c ∷ []) ≡ c ∷ []
unfolding extend add has
extend_self c = simp (eqb_refl c)

-- The only wanted commit is missing, and the bundle that advertises it is downloaded: then every
-- round of the loop leaves its variables as they are, and the loop goes on after any fuel.
fetch_loop_goes_on :
    {G : Type 0} (ask : G → Git) (install_pack : Bytes → G → Result Bytes G)
    (download_bundle : ObjectBundle → Result Bytes Bytes) (tip_to_bundle : BTreeMap Bytes)
    (index : BTreeMap ObjectBundleRecord) (n fuel : ℕ) (c id : Bytes)
    (walked downloaded : List Bytes) (git : G)
    → get c tip_to_bundle ≡ some id
    → has id downloaded ≡ true
    → IsMissing (ask git) c
    → has c walked ≡ false
    → fetch_loop ask install_pack download_bundle tip_to_bundle index
        (suc n)
        fuel
        (record { wanted = c ∷ []; walked = walked; downloaded = downloaded; git = git })
      ≡ none
unfolding fetch_loop round after_walk
fetch_loop_goes_on ask install download tips index n zero c id walked downloaded git listed done
      gone new =
    refl
fetch_loop_goes_on ask install download tips index n (suc fuel) c id walked downloaded git listed
      done gone new =
    rw
      (
        to_download-has tips c id downloaded listed done,
        walk_unresolved_parents-IsMissing (ask git) n c walked gone new,
        any_resolvable-get tips c id listed,
        extend_self c,
      )
      (fetch_loop_goes_on ask install download tips index n fuel c id walked downloaded git listed
        done gone new)

-- The bundle that a tip extension lists for the only wanted commit is in the object index, and is
-- downloaded and installed without an error, but git still has no object of that commit. Then the
-- loop of the fetch neither succeeds nor fails: whatever the fuel, it goes on.
pub fetch_loop_livelock :
    {G : Type 0} (ask : G → Git) (install_pack : Bytes → G → Result Bytes G)
    (download_bundle : ObjectBundle → Result Bytes Bytes) (tip_to_bundle : BTreeMap Bytes)
    (index : BTreeMap ObjectBundleRecord) (n fuel : ℕ) (c id : Bytes)
    (walked downloaded : List Bytes) (git git' : G) (entry : ObjectBundleRecord)
    (pack_bytes : Bytes)
    → get c tip_to_bundle ≡ some id
    → has id downloaded ≡ false
    → get id index ≡ some entry
    → download_bundle entry.bundle ≡ ok pack_bytes
    → install_pack pack_bytes git ≡ ok git'
    → IsMissing (ask git') c
    → has c walked ≡ false
    → fetch_loop ask install_pack download_bundle tip_to_bundle index
        (suc n)
        fuel
        (record { wanted = c ∷ []; walked = walked; downloaded = downloaded; git = git })
      ≡ none
unfolding fetch_loop round after_download download_all
fetch_loop_livelock ask install download tips index n zero c id walked downloaded git git' entry
      pack listed new indexed fetched installed gone unwalked =
    refl
fetch_loop_livelock ask install download tips index n (suc fuel) c id walked downloaded git git'
      entry pack listed new indexed fetched installed gone unwalked =
    rw (to_download-new tips c id downloaded listed new, indexed, fetched, installed)
      (fetch_loop_goes_on ask install download tips index n fuel c id walked (id ∷ downloaded) git'
        listed (has_first id downloaded) gone unwalked)
