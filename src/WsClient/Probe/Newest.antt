-- ===== src/WsClient/Probe/Newest.antt =====
-- A state is adopted from a retired generation only after the keys of all newer ones are known to be
-- empty, crates/freenet-git/src/wsclient.rs.
use freenet_git.Prelude.{
  ℕ, ◌+◌, ◌<◌, ◌≤◌, All, Among, Among-All, Bool-cases, ltb, ltb→lt, ltb→ge, ◌≡◌, ◌≢◌, refl, ◌∙◌, ap,
  ◌⊎◌, inl, inr, Bool, List, [], ◌∷◌, ◌++◌, Bytes, map, arith,
}
use freenet_git.Crypto.{Crypto}
use freenet_git.WsClient.Host.{Stdlib, WebApi, got, get_state}
use freenet_git.WsClient.Probe.{
  ContractLineageEntry, legacy_instance_id, Candidate, candidates_from, newest_first, legacy_key,
  current_key, Outcomes, current, legacy, LegacyAwareGet, found, inspect, walk, probe_all_keys,
}
use freenet_git.WsClient.Probe.Conclude.{
  Misses, none, miss, conclude-found, inspect-present, inspect-missing,
}
use freenet_git.WsClient.Probe.Sorted.{
  NewestFirst, EntryAt, candidate, newest_first-NewestFirst, newest_first-Among, Among-newest_first,
  candidates_from-Among, candidates_from-EntryAt, Among-split, NewestFirst-older,
}

-- A candidate's state that ended a walk, after all before it were missed.
record Hit (lib : Stdlib) (wait : Bytes) (xs : List Candidate) (w : WebApi) (g : LegacyAwareGet)
    (w' : WebApi) : Type 0 where
  newer : List Candidate
  at : Candidate
  older : List Candidate
  split : xs ≡ newer ++ at ∷ older
  before : WebApi
  misses : Misses lib wait w (map (λ y. y.id) newer) before
  answer : get_state lib at.id Bool.false wait before ≡ (got g.state, w')
  source : g.source ≡ legacy at.index at.id
  some_state : g.state ≢ []

walk-Hit :
    (lib : Stdlib) (wait : Bytes) (xs : List Candidate) (outcomes : Outcomes) (w : WebApi)
    (g : LegacyAwareGet) (w' : WebApi)
    → walk lib wait xs outcomes w ≡ (found g, w')
    → Hit lib wait xs w g w'
unfolding walk
walk-Hit lib wait [] outcomes w g w' h = absurd (ground arith)
walk-Hit lib wait (x ∷ xs) outcomes w g w' h =
    let (r, v) = get_state lib x.id Bool.false wait w in
    let label = legacy_key x.index x.id in
    elim (conclude-found label (legacy x.index x.id) outcomes v (λ os. walk lib wait xs os v) w'
      (inspect r) g h) [
        | inl (p, q, e) ↦
            let (state, some_state) = inspect-present r g.state p in
            record {
              newer = [];
              at = x;
              older = xs;
              split = refl;
              before = w;
              misses = none w;
              answer = rw (state, e) refl;
              source = q;
              some_state = some_state;
            }
        | inr (o, p, a, go) ↦
            let hit = walk-Hit lib wait xs (outcomes ++ (label, o) ∷ []) v g w' go in
            record {
              newer = x ∷ hit.newer;
              at = hit.at;
              older = hit.older;
              split = ap (λ ys. x ∷ ys) hit.split;
              before = hit.before;
              misses =
                  miss w hit.before x.id (map (λ y. y.id) hit.newer) (inspect-missing wait r o p a)
                    hit.misses;
              answer = hit.answer;
              source = hit.source;
              some_state = hit.some_state;
            }
      ]

-- A state adopted from the retired generation at an index of the lineage: the keys missed before it.
pub record Adopted (c : Crypto) (lib : Stdlib) (current_id params_bytes : Bytes)
    (lineage : List ContractLineageEntry) (wait : Bytes) (w : WebApi) (g : LegacyAwareGet)
    (w' : WebApi) : Type 0 where
  pub index : ℕ
  pub entry : ContractLineageEntry
  pub entry_at : EntryAt 0 index entry lineage
  pub source : g.source ≡ legacy index (legacy_instance_id c entry params_bytes)
  pub missed : List Bytes
  pub before : WebApi
  pub misses : Misses lib wait w (current_id ∷ missed) before
  pub answer :
      get_state lib (legacy_instance_id c entry params_bytes) Bool.false wait before
      ≡ (got g.state, w')
  pub newer :
      All
        (λ e.
          (e.generation ≤ entry.generation) ⊎ Among (legacy_instance_id c e params_bytes) missed)
        lineage

Among-map : (a : Candidate) (xs : List Candidate) → Among a xs → Among a.id (map (λ y. y.id) xs)
Among-map a [] h = elim h [ ]
Among-map a (x ∷ xs) (inl e) = inl (ap (λ y. y.id) e)
Among-map a (x ∷ xs) (inr m) = inr (Among-map a xs m)

-- A candidate that is newer than the one that was hit stands before it.
newer-Among :
    (a x : Candidate) (newer older : List Candidate)
    → NewestFirst (newer ++ x ∷ older)
    → x.generation < a.generation
    → Among a (newer ++ x ∷ older)
    → Among a newer
newer-Among a x newer older s h m = elim (Among-split a x newer older m) [
  | inl k ↦ k
  | inr (inl e) ↦ absurd (omega (arith, ap (λ y. y.generation) e))
  | inr (inr k) ↦ absurd (
      omega (
        arith,
        Among-All (λ y. y.generation ≤ x.generation) a older k (NewestFirst-older x newer older s),
      ))
]

hit_among : (x : Candidate) (newer older : List Candidate) → Among x (newer ++ x ∷ older)
hit_among x [] older = inl refl
hit_among x (y ∷ newer) older = inr (hit_among x newer older)

EntryAt-All :
    (P : ContractLineageEntry → Type 0) (n : ℕ) (lineage : List ContractLineageEntry)
    → ((i : ℕ) (e : ContractLineageEntry) → EntryAt n i e lineage → P e)
    → All P lineage
EntryAt-All P n [] f = tt
EntryAt-All P n (x ∷ xs) f =
    (f n x (inl (refl, refl)), EntryAt-All P (n + 1) xs (λ i e at. f i e (inr at)))

Hit-Adopted :
    (c : Crypto) (lib : Stdlib) (current_id params_bytes : Bytes)
    (lineage : List ContractLineageEntry) (wait : Bytes) (w v : WebApi) (g : LegacyAwareGet)
    (w' : WebApi)
    → ((ids : List Bytes) (z : WebApi)
        → Misses lib wait v ids z
        → Misses lib wait w (current_id ∷ ids) z)
    → Hit lib wait (newest_first (candidates_from c params_bytes 0 lineage)) v g w'
    → Adopted c lib current_id params_bytes lineage wait w g w'
Hit-Adopted c lib current_id params_bytes lineage wait w v g w' first h =
    let cs = candidates_from c params_bytes 0 lineage in
    let s : NewestFirst (h.newer ++ h.at ∷ h.older) =
      rw (← h.split) (newest_first-NewestFirst cs) in
    let here : Among h.at (newest_first cs) = rw (h.split) (hit_among h.at h.newer h.older) in
    let (e, at, same) =
      candidates_from-EntryAt c params_bytes 0 h.at lineage (newest_first-Among h.at cs here) in
    let id : h.at.id ≡ legacy_instance_id c e params_bytes = ap (λ y. y.id) same in
    let age : h.at.generation ≡ e.generation = ap (λ y. y.generation) same in
    record {
      index = h.at.index;
      entry = e;
      entry_at = at;
      source = h.source ∙ ap (legacy h.at.index) id;
      missed = map (λ y. y.id) h.newer;
      before = h.before;
      misses = first (map (λ y. y.id) h.newer) h.before h.misses;
      answer = rw (← id) (h.answer);
      newer = EntryAt-All _ 0 lineage (λ i f found_at.
          elim (Bool-cases (ltb e.generation f.generation)) [
            | inr old ↦ inl (ltb→ge e.generation f.generation old)
            | inl lt ↦
                let a = candidate c params_bytes i f in
                let in_candidates = candidates_from-Among c params_bytes 0 i f lineage found_at in
                let in_sorted = Among-newest_first a cs in_candidates in
                let younger : h.at.generation < a.generation =
                  omega (arith, age, ltb→lt e.generation f.generation lt) in
                inr (
                  Among-map a h.newer
                    (newer-Among a h.at h.newer h.older s younger (rw (← h.split) in_sorted)))
          ]);
    }

-- If one pass over the keys finds a state, then the state is not empty, and either the current key
-- gave it, or it is the answer of the key of a retired generation and, in GETs before that one, the
-- current key and the keys of all generations newer than it each gave an empty state or an error
-- whose text holds "not found on the network", does not hold "timed out waiting for GET response"
-- and is not the one that a GET makes when its deadline passes.
pub probe_all_keys-Adopted :
    (c : Crypto) (lib : Stdlib) (current_id params_bytes : Bytes)
    (lineage : List ContractLineageEntry) (wait : Bytes) (w : WebApi) (g : LegacyAwareGet)
    (w' : WebApi)
    → probe_all_keys c lib current_id params_bytes lineage wait w ≡ (found g, w')
    → (g.state ≢ [])
      × (((g.source ≡ current) × (get_state lib current_id Bool.false wait w ≡ (got g.state, w')))
          ⊎ Adopted c lib current_id params_bytes lineage wait w g w')
unfolding probe_all_keys
probe_all_keys-Adopted c lib current_id params_bytes lineage wait w g w' h =
    let (r, v) = get_state lib current_id Bool.false wait w in
    let label = current_key current_id in
    let cs = newest_first (candidates_from c params_bytes 0 lineage) in
    elim (conclude-found label current [] v (λ os. walk lib wait cs os v) w' (inspect r) g h) [
      | inl (p, q, e) ↦
          let (state, some_state) = inspect-present r g.state p in
          (some_state, inl (q, rw (state, e) refl))
      | inr (o, p, a, go) ↦
          let hit = walk-Hit lib wait cs ((label, o) ∷ []) v g w' go in
          (
            hit.some_state,
            inr (
                Hit-Adopted c lib current_id params_bytes lineage wait w v g w'
                  (λ ids z m. miss w z current_id ids (inspect-missing wait r o p a) m) hit),
          )
    ]
