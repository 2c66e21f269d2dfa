-- ===== src/Tests/ContractTests.antt =====
-- The theorems on the contracts, at concrete values.
use Prim.Native.String.{String}
use freenet_git.Prelude.{
  ℕ, ◌≡◌, refl, sym, ap, ◌↔◌, arith, All, Option, none, some, List, [], ◌∷◌, Bytes, bytes, Bool,
  true, false, ◌&&◌, if◌then◌else◌,
}
use freenet_git.BTreeMap.Order.{cmp, eqb}
use freenet_git.BTreeMap.{get}
use freenet_git.Outcome.{Result, ok, err, map_err, ok_injective}
use freenet_git.Repo.State.{RepoState, default_state, IsOrdered}
use freenet_git.Repo.Validate.{validate_state, pubkey_prefix, for_entries}
use freenet_git.Repo.Merge.{merge_state}
use freenet_git.Repo.Delta.{RepoSummary, default_summary}
use freenet_git.Repo.Delta.Sync.{SingleWriter}
use freenet_git.Contracts.{UpdateData, full_state, delta, invalid_update_with_info}
use freenet_git.Contracts.Bincode.{Bincode, RoundTrips, params_from_bytes, state_from_bytes}
use freenet_git.Contracts.RepoContract.{is_none, is_empty, is_empty_delta}
use freenet_git.Contracts.Pack.Content.{IsPack, Delivers, update_state_iff, update_state-IsPack}
use freenet_git.Contracts.Pack
use freenet_git.Contracts.RepoContract
use freenet_git.Contracts.RepoContract.Loop.{IsLater, update_state-IsLater}
use freenet_git.Contracts.RepoContract.Sync.{both, update_state-get_state_delta}
use freenet_git.Tests.{test_crypto, owner, params}

abbrev pack_key : Bytes
pack_key = test_crypto.blake3 (bytes "pack")

held_content : IsPack test_crypto pack_key (bytes "pack")
held_content = record { size = refl; hash = refl }

abbrev re_put : List UpdateData
re_put = full_state (bytes "pack") ∷ full_state (bytes "pack") ∷ []

update_state_iff_example :
    (Pack.update_state test_crypto pack_key (bytes "pack") re_put ≡ ok (bytes "pack"))
    ↔ (All (Delivers test_crypto pack_key) re_put × (bytes "pack" ≡ bytes "pack"))
update_state_iff_example =
    update_state_iff test_crypto pack_key (bytes "pack") re_put (bytes "pack")

update_state-IsPack_example : IsPack test_crypto pack_key (bytes "pack")
update_state-IsPack_example =
    update_state-IsPack test_crypto pack_key (bytes "pack") re_put (bytes "pack") held_content (
      (update_state_iff test_crypto pack_key (bytes "pack") re_put (bytes "pack")).1
        ((held_content, (held_content, tt)), refl))

-- A codec for states that hold nothing but the owner, which fails on all others.
abbrev owner_only : Bytes → RepoState
owner_only o = record default_state { owner = o }

abbrev empty_summary : RepoSummary → Bool
empty_summary s =
    is_empty s.field_seqs
    && (is_empty s.ref_seqs && (is_empty s.bundle_ids && is_empty s.extension_seqs))

abbrev read_owner : Bytes → Result String RepoState
read_owner [] = err "empty"
read_owner (x ∷ o) = ok (owner_only o)

abbrev owner_codec : Bincode
owner_codec = record {
  deserialize_params = λ x. ok (record { prefix = x });
  serialize_state = λ s. if is_empty_delta s then ok (1 ∷ s.owner) else err "unsupported";
  deserialize_state = read_owner;
  serialize_summary = λ s. if empty_summary s then ok (1 ∷ []) else err "unsupported";
  deserialize_summary = λ x. ok default_summary;
}

no_value : {A : Type 0} (x : Option A) → is_none x ≡ true → none ≡ x
no_value none h = refl
no_value (some a) h = absurd (ground arith)

no_element : {A : Type 0} (x : List A) → is_empty x ≡ true → [] ≡ x
no_element [] h = refl
no_element (a ∷ x) h = absurd (ground arith)

owner_only_eq : (s : RepoState) → is_empty_delta s ≡ true → owner_only s.owner ≡ s
unfolding is_empty_delta
owner_only_eq s h =
    let (h1, h) = both _ _ h in
    let (h2, h) = both _ _ h in
    let (h3, h) = both _ _ h in
    let (h4, h) = both _ _ h in
    let (h5, h) = both _ _ h in
    let (h6, h) = both _ _ h in
    let (h7, h) = both _ _ h in
    let (h8, h9) = both _ _ h in
    λ i. record {
      owner = s.owner;
      name = no_value s.name h1 i;
      description = no_value s.description h2 i;
      default_branch = no_value s.default_branch h3 i;
      force_push_allowed = no_value s.force_push_allowed h4 i;
      acl = no_value s.acl h5 i;
      upgrade = no_value s.upgrade h6 i;
      refs = no_element s.refs h7 i;
      object_index = no_element s.object_index h8 i;
      extensions = no_element s.extensions h9 i;
    }

empty_summary_eq : (s : RepoSummary) → empty_summary s ≡ true → default_summary ≡ s
empty_summary_eq s h =
    let (h1, h) = both _ _ h in
    let (h2, h) = both _ _ h in
    let (h3, h4) = both _ _ h in
    λ i. record {
      field_seqs = no_element s.field_seqs h1 i;
      ref_seqs = no_element s.ref_seqs h2 i;
      bundle_ids = no_element s.bundle_ids h3 i;
      extension_seqs = no_element s.extension_seqs h4 i;
    }

-- A write that succeeds was allowed, and wrote what it should.
was_written :
    (b : Bool) (w x : Bytes) (e : Result String Bytes)
    → ((y : Bytes) → e ≡ ok y → ⊥)
    → (if b then ok w else e) ≡ ok x
    → (b ≡ true) × (w ≡ x)
was_written true w x e ne h = (refl, ok_injective w x (ok w) refl h)
was_written false w x e ne h = absurd (ne x h)

unsupported : (y : Bytes) (e : String) (m : Result String Bytes) → m ≡ err e → m ≡ ok y → ⊥
unsupported y e m g h = ground arith

one_byte : (x y : Bytes) (n : ℕ) → n ∷ y ≡ x → x ≡ [] → ⊥
one_byte x y n e f = ground arith

read_owner-IsOrdered : (s : RepoState) (x : Bytes) → read_owner x ≡ ok s → IsOrdered s
read_owner-IsOrdered s [] h = absurd (ground arith)
read_owner-IsOrdered s (x ∷ o) h =
    rw (sym (ok_injective (owner_only o) s _ refl h))
      (record { refs = tt; object_index = tt; extensions = tt })

owner_codec-RoundTrips : RoundTrips owner_codec
owner_codec-RoundTrips = record {
  state = λ s x h.
      let (e, w) =
        was_written (is_empty_delta s) (1 ∷ s.owner) x (err "unsupported")
          (λ y. unsupported y "unsupported" _ refl) h in
      rw (sym w) (ap ok (owner_only_eq s e));
  state_written = λ s x h e.
      one_byte x s.owner 1
        (was_written (is_empty_delta s) (1 ∷ s.owner) x (err "unsupported")
          (λ y. unsupported y "unsupported" _ refl) h).1
        e;
  state_ordered = read_owner-IsOrdered;
  summary = λ s x h. ap ok (
      empty_summary_eq s
        (was_written (empty_summary s) (1 ∷ []) x (err "unsupported")
          (λ y. unsupported y "unsupported" _ refl) h).0);
  summary_written = λ s x h e.
      one_byte x [] 1
        (was_written (empty_summary s) (1 ∷ []) x (err "unsupported")
          (λ y. unsupported y "unsupported" _ refl) h).1
        e;
}

abbrev held : Bytes
held = 1 ∷ owner

read_params : RepoContract.decode_params owner_codec owner ≡ ok params
unfolding RepoContract.decode_params params_from_bytes
read_params = refl

read_held : RepoContract.decode_state owner_codec held ≡ ok (owner_only owner)
unfolding RepoContract.decode_state state_from_bytes
read_held = refl

owner_only_valid : validate_state test_crypto params (owner_only owner) ≡ ok tt
unfolding validate_state pubkey_prefix for_entries eqb cmp
owner_only_valid = refl

one_writer : SingleWriter (owner_only owner) (owner_only owner)
unfolding get
one_writer = record {
  name = tt;
  description = tt;
  default_branch = tt;
  force_push_allowed = tt;
  acl = tt;
  upgrade = tt;
  refs = λ k. tt;
  extensions = λ k. tt;
}

held_update :
    RepoContract.update_state owner_codec test_crypto owner held (full_state held ∷ delta [] ∷ [])
    ≡ ok held
unfolding RepoContract.update_state RepoContract.decode_params params_from_bytes
    RepoContract.decode_state state_from_bytes RepoContract.update_loop RepoContract.update_one
    RepoContract.apply freenet_git.Repo.Merge.update_state validate_state eqb cmp pubkey_prefix
    merge_state freenet_git.Repo.Merge.pick_signed_field for_entries
    freenet_git.Repo.Merge.merge_entries freenet_git.Repo.Merge.add_missing is_empty_delta
held_update = refl

held_summary : RepoContract.summarize_state owner_codec test_crypto owner held ≡ ok (1 ∷ [])
unfolding RepoContract.summarize_state RepoContract.decode_params params_from_bytes
    RepoContract.decode_state state_from_bytes freenet_git.Repo.Delta.summarize_state
    freenet_git.Repo.Delta.note_field freenet_git.Repo.Delta.note_seqs
held_summary = refl

held_delta : RepoContract.get_state_delta owner_codec test_crypto owner held (1 ∷ []) ≡ ok []
unfolding RepoContract.get_state_delta RepoContract.decode_params params_from_bytes
    RepoContract.decode_state RepoContract.decode_summary state_from_bytes is_empty_delta
    freenet_git.Repo.Delta.get_state_delta freenet_git.Repo.Delta.delta_field
    freenet_git.Repo.Delta.gtb freenet_git.Repo.Delta.delta_entries
    freenet_git.Repo.Delta.delta_bundles
held_delta = refl

update_state-IsLater_example :
    (m : RepoState) × (owner_codec.deserialize_state held ≡ ok m)
    × IsLater owner_codec owner_codec-RoundTrips test_crypto params (owner_only owner) m
update_state-IsLater_example =
    update_state-IsLater owner_codec owner_codec-RoundTrips test_crypto owner held params
      (owner_only owner) (full_state held ∷ delta [] ∷ []) held read_params read_held held_update

update_state-get_state_delta_example :
    RepoContract.update_state owner_codec test_crypto owner held (delta [] ∷ [])
    ≡ map_err
        (λ e. invalid_update_with_info "re-serialize updated state" (RepoContract.of_bincode e))
        (owner_codec.serialize_state (merge_state (owner_only owner) (owner_only owner)))
update_state-get_state_delta_example =
    update_state-get_state_delta owner_codec owner_codec-RoundTrips test_crypto owner params
      read_params held held (owner_only owner) (owner_only owner) (1 ∷ []) [] read_held read_held
      owner_only_valid owner_only_valid refl one_writer held_summary held_delta
