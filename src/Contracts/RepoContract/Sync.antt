-- ===== src/Contracts/RepoContract/Sync.antt =====
-- One round of summary and delta between two nodes, through the calls of the repo contract.
use freenet_git.Prelude.{
  ◌≡◌, refl, sym, ◌∙◌, ap, Option, none, some, [], ◌∷◌, Bytes, Bool, true, ◌&&◌, if◌then◌else◌,
  Bool-cases, inl, inr, arith,
}
use freenet_git.BTreeMap.{BTreeMap}
use freenet_git.Crypto.{Crypto}
use freenet_git.Outcome.{Result, ok, map_err, map_err-ok, ok_injective}
use freenet_git.Repo.State.{RepoParams, SignedField, RepoState}
use freenet_git.Repo.Validate
use freenet_git.Repo.Merge
use freenet_git.Repo.Merge.{merge_state, pick_signed_field, merge_entries, add_missing}
use freenet_git.Repo.Merge.Valid.{update_state_valid}
use freenet_git.Repo.Delta
use freenet_git.Repo.Delta.{RepoSummary}
use freenet_git.Repo.Delta.Sync.{SingleWriter, merge_state-get_state_delta}
use freenet_git.Contracts.{delta, invalid_update_with_info}
use freenet_git.Contracts.Bincode.{Bincode, RoundTrips, state_from_bytes}
use freenet_git.Contracts.RepoContract.{
  Error, of_bincode, is_none, is_empty, is_empty_delta, decode_params, decode_state, decode_summary,
  apply, update_one, update_loop, update_state, summarize_state, get_state_delta,
}
use freenet_git.Contracts.RepoContract.Loop.{decode_state-IsOrdered}

pub both : (a b : Bool) → (a && b) ≡ true → (a ≡ true) × (b ≡ true)
both a b h = ground arith

no_field :
    {T : Type 0} (x y : Option (SignedField T)) → is_none y ≡ true → pick_signed_field x y ≡ x
unfolding pick_signed_field
no_field none none h = refl
no_field (some a) none h = refl
no_field x (some b) h = absurd (ground arith)

no_entries :
    {V : Type 0} (f : V → V → V) (x y : BTreeMap V) → is_empty y ≡ true → merge_entries f x y ≡ x
unfolding merge_entries
no_entries f x [] h = refl
no_entries f x (e ∷ es) h = absurd (ground arith)

no_bundles : {V : Type 0} (x y : BTreeMap V) → is_empty y ≡ true → add_missing x y ≡ x
unfolding add_missing
no_bundles x [] h = refl
no_bundles x (e ∷ es) h = absurd (ground arith)

-- A delta that the contract takes for empty changes nothing.
pub merge_state-is_empty_delta : (a d : RepoState) → is_empty_delta d ≡ true → merge_state a d ≡ a
unfolding merge_state is_empty_delta
merge_state-is_empty_delta a d h =
    let (h1, h) = both _ _ h in
    let (h2, h) = both _ _ h in
    let (h3, h) = both _ _ h in
    let (h4, h) = both _ _ h in
    let (h5, h) = both _ _ h in
    let (h6, h) = both _ _ h in
    let (h7, h) = both _ _ h in
    let (h8, h9) = both _ _ h in
    λ i. record {
      owner = a.owner;
      name = no_field a.name d.name h1 i;
      description = no_field a.description d.description h2 i;
      default_branch = no_field a.default_branch d.default_branch h3 i;
      force_push_allowed = no_field a.force_push_allowed d.force_push_allowed h4 i;
      acl = no_field a.acl d.acl h5 i;
      upgrade = no_field a.upgrade d.upgrade h6 i;
      refs = no_entries Merge.pick_ref_entry a.refs d.refs h7 i;
      object_index = no_bundles a.object_index d.object_index h8 i;
      extensions = no_entries Merge.pick_extension_entry a.extensions d.extensions h9 i;
    }

module _ (b : Bincode) (rt : RoundTrips b) where
  decode_state-written :
      (s : RepoState) (x : Bytes) → b.serialize_state s ≡ ok x → decode_state b x ≡ ok s
  unfolding decode_state state_from_bytes
  decode_state-written s [] h = absurd (rt.state_written s [] h refl)
  decode_state-written s (x ∷ xs) h = rw (rt.state s (x ∷ xs) h)

  decode_summary-written :
      (s : RepoSummary) (x : Bytes) → b.serialize_summary s ≡ ok x → decode_summary b x ≡ ok s
  unfolding decode_summary
  decode_summary-written s [] h = absurd (rt.summary_written s [] h refl)
  decode_summary-written s (x ∷ xs) h = rw (rt.summary s (x ∷ xs) h)

  abbrev written : RepoState → Result Error Bytes
  written s =
      map_err (λ e. invalid_update_with_info "re-serialize updated state" (of_bincode e))
        (b.serialize_state s)

  module _ (c : Crypto) (parameters : Bytes) (params : RepoParams)
      (hp : decode_params b parameters ≡ ok params) where
    no_delta :
        (x : Bytes) (peer : RepoState)
        → decode_state b x ≡ ok peer
        → update_state b c parameters x (delta [] ∷ []) ≡ written peer
    unfolding update_state update_loop update_one
    no_delta x peer hx = rw (hp, hx) refl

    some_delta :
        (x y : Bytes) (peer d : RepoState)
        → decode_state b x ≡ ok peer
        → b.serialize_state d ≡ ok y
        → Validate.validate_state c params (merge_state peer d) ≡ ok tt
        → update_state b c parameters x (delta y ∷ []) ≡ written (merge_state peer d)
    unfolding update_state update_loop update_one apply Merge.update_state
    some_delta x [] peer d hx hy v = absurd (rt.state_written d [] hy refl)
    some_delta x (z ∷ zs) peer d hx hy v = rw (hp, hx, decode_state-written d (z ∷ zs) hy, v) refl

    -- An update by the delta that the contract computed.
    one_delta :
        (x y : Bytes) (peer d : RepoState)
        → decode_state b x ≡ ok peer
        → (if is_empty_delta d
            then ok []
            else map_err
                (λ e. invalid_update_with_info "serialize delta" (of_bincode e))
                (b.serialize_state d))
          ≡ ok y
        → Validate.validate_state c params (merge_state peer d) ≡ ok tt
        → update_state b c parameters x (delta y ∷ []) ≡ written (merge_state peer d)
    one_delta x y peer d hx hy v = elim (Bool-cases (is_empty_delta d)) [
      | inl t ↦
          let e = ok_injective [] y _ refl (rw t at hy) in
          rw (sym e, merge_state-is_empty_delta peer d t) (no_delta x peer hx)
      | inr f ↦ some_delta x y peer d hx (map_err-ok _ _ y (rw f at hy)) v
    ]

    -- Given that the codec round-trips and reads maps in key order: if two nodes hold valid
    -- states of one repo and owner, no sequence number of a place was used for two entries,
    -- and the summary of the one and the delta that the other computes for it are returned,
    -- then the update by that delta leaves the one with the merge of both states, written as
    -- bytes.
    pub update_state-get_state_delta :
        (x y : Bytes) (peer s : RepoState) (summary d : Bytes)
        → decode_state b x ≡ ok peer
        → decode_state b y ≡ ok s
        → Validate.validate_state c params peer ≡ ok tt
        → Validate.validate_state c params s ≡ ok tt
        → peer.owner ≡ s.owner
        → SingleWriter peer s
        → summarize_state b c parameters x ≡ ok summary
        → get_state_delta b c parameters y summary ≡ ok d
        → update_state b c parameters x (delta d ∷ [])
          ≡ map_err
              (λ e. invalid_update_with_info "re-serialize updated state" (of_bincode e))
              (b.serialize_state (merge_state peer s))
    unfolding summarize_state get_state_delta
    update_state-get_state_delta x y peer s summary d hx hy vp vs o w hs hd =
        let op = decode_state-IsOrdered b rt x peer hx in
        let os = decode_state-IsOrdered b rt y s hy in
        let hs = map_err-ok _ _ summary (rw (hp, hx) at hs) in
        let hd =
          rw (hp, hy, decode_summary-written (Delta.summarize_state peer) summary hs) at hd in
        let same = merge_state-get_state_delta peer s op os w in
        let v = (update_state_valid c params peer s op os o vp vs).1 in
        one_delta x d peer (Delta.get_state_delta s (Delta.summarize_state peer)) hx hd (rw same v)
        ∙ ap written same
