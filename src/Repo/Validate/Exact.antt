-- ===== src/Repo/Validate/Exact.antt =====
-- `validate_state` accepts exactly the authorised states.
use Prim.Native.String.{String}
use freenet_git.Prelude.{
  ℕ, ◌≡◌, refl, sym, ◌∙◌, ◌↔◌, Option, none, some, List, [], ◌∷◌, Bytes, length,
}
use freenet_git.Prelude.{not, ltb, ◌||◌, if◌then◌else◌}
use freenet_git.BTreeMap.{BTreeMap, get}
use freenet_git.BTreeMap.Order.{eqb}
use freenet_git.BTreeMap.Laws.{IsSorted}
use freenet_git.Crypto.{Crypto}
use freenet_git.Outcome.{ok, err, ◌>>=◌, ◌>>◌, ok_or}
use freenet_git.Repo.State.{
  RepoParams, SignedField, RepoState, IsOrdered, invalid_prefix_chars, invalid_prefix_length,
  prefix_mismatch, max_name_bytes, max_description_bytes, max_ref_name_bytes, min_prefix_len,
  max_prefix_len,
}
use freenet_git.Repo.Payload.{params_repo_key}
use freenet_git.Repo.Payload.Content.{
  Content, name, description, default_branch, force_push_allowed, acl, upgrade, payload,
}
use freenet_git.Repo.Validate.{
  Check, check_size, if_some, pubkey_prefix, verify_payload, verify_signed_field_string,
  verify_signed_field_ref_list, verify_signed_field_acl, verify_signed_field_optional_repo_key,
  validate_ref, validate_bundle, validate_extension, for_entries, validate_state,
}
use freenet_git.Repo.Validate.Checks.{
  Passes, IfSome, IfSome-imp, >>-Passes, Passes->>, guard_eq, for_entries-Passes,
  verify_payload-Passes, chain, chain-Passes,
}
use freenet_git.Repo.Validate.Authorized.{
  OwnerSigned, RefOk, BundleOk, ExtensionOk, TextOk, IsAuthorized, validate_ref-Passes,
  validate_bundle-Passes, validate_extension-Passes, text-Passes, length_guard, ok_or-Passes,
}

-- `↔` through an optional value, and through the entries of a map.
IfSome-iff :
    {A : Type 0} (o : Option A) (f : A → Check) (P : A → Type 0)
    → ((a : A) → Passes (f a) ↔ P a)
    → Passes (if_some o f) ↔ IfSome o P
IfSome-iff none f P h = (λ p. tt, λ p. refl)
IfSome-iff (some a) f P h = h a

entries_iff :
    {V : Type 0} (f : Bytes → V → Check) (m : BTreeMap V) (P : Bytes → V → Type 0)
    → IsSorted m
    → ((k : Bytes) (v : V) → Passes (f k v) ↔ P k v)
    → Passes (for_entries f m) ↔ ((k : Bytes) → IfSome (get k m) (P k))
entries_iff f m P s h = (
  λ p k. IfSome-imp (get k m) _ _ (λ v. (h k v).0) ((for_entries-Passes f m s).0 p k),
  λ p. (for_entries-Passes f m s).1 (λ k. IfSome-imp (get k m) _ _ (λ v. (h k v).1) (p k)),
)

module _ (c : Crypto) (params : RepoParams) (s : RepoState) (o : IsOrdered s) where
  abbrev repo_key : Bytes
  repo_key = params_repo_key c params s.owner

  -- The checks behind the one on the name.
  abbrev field_checks : List Check
  field_checks =
      (if_some s.description λ f. do
        check_size "description" (length f.value) max_description_bytes
        verify_payload c (payload repo_key (description f.value f.update_seq)) s.owner f.signature
            "description")
      ∷ (if_some s.default_branch λ f. do
        check_size "default_branch" (length f.value) max_ref_name_bytes
        verify_payload c (payload repo_key (default_branch f.value f.update_seq)) s.owner
            f.signature "default_branch")
      ∷ (if_some s.force_push_allowed λ f.
          verify_payload c (payload repo_key (force_push_allowed f.value f.update_seq)) s.owner
            f.signature "force_push_allowed")
      ∷ (if_some s.acl λ f.
          verify_payload c (payload repo_key (acl f.value f.update_seq)) s.owner f.signature "acl")
      ∷ (if_some s.upgrade λ f.
          verify_payload c (payload repo_key (upgrade f.value f.update_seq)) s.owner f.signature
            "upgrade")
      ∷ for_entries (validate_ref c repo_key s.owner) s.refs
      ∷ for_entries (validate_bundle c repo_key s.owner) s.object_index
      ∷ for_entries (validate_extension c repo_key s.owner) s.extensions
      ∷ []

  abbrev name_check : Check
  name_check = if_some s.name λ f. do
    check_size "name" (length f.value) max_name_bytes
    verify_payload c (payload repo_key (name f.value f.update_seq)) s.owner f.signature "name"

  -- `validate_state`, with the checks on the entries named.
  validate_state-chain : validate_state c params s ≡ (do
    if ltb (length params.prefix) min_prefix_len || ltb max_prefix_len (length params.prefix)
        then err (invalid_prefix_length (length params.prefix) min_prefix_len max_prefix_len)
        else ok tt
    _ ← ok_or invalid_prefix_chars (c.bs58_decode params.prefix)
    if not (eqb (pubkey_prefix c s.owner (length params.prefix)) params.prefix)
        then err (prefix_mismatch params.prefix (pubkey_prefix c s.owner (length params.prefix)))
        else ok tt
    chain name_check field_checks)
  unfolding validate_state verify_signed_field_string verify_signed_field_ref_list
      verify_signed_field_acl verify_signed_field_optional_repo_key payload
  validate_state-chain = refl

  -- What each of those checks asks.
  name_asks : Passes name_check ↔ IfSome s.name (TextOk c repo_key s.owner name max_name_bytes)
  name_asks = IfSome-iff s.name _ _ (text-Passes c repo_key s.owner "name" max_name_bytes name)

  signed_asks :
      {T : Type 0} (f : Option (SignedField T)) (content : T → ℕ → Content) (label : String)
      → Passes (
          if_some f λ g.
            verify_payload c
              (payload repo_key (content g.value g.update_seq))
              s.owner
              g.signature
              label)
        ↔ IfSome f (λ g. OwnerSigned c repo_key s.owner (content g.value g.update_seq) g.signature)
  signed_asks f content label =
      IfSome-iff f _ _ (λ g. verify_payload-Passes c _ s.owner g.signature label)

  refs_ask :
      Passes (for_entries (validate_ref c repo_key s.owner) s.refs)
      ↔ ((k : Bytes) → IfSome (get k s.refs) (RefOk c repo_key s.owner k))
  refs_ask = entries_iff _ s.refs _ o.refs (validate_ref-Passes c repo_key s.owner)

  bundles_ask :
      Passes (for_entries (validate_bundle c repo_key s.owner) s.object_index)
      ↔ ((k : Bytes) → IfSome (get k s.object_index) (BundleOk c repo_key s.owner k))
  bundles_ask =
      entries_iff _ s.object_index _ o.object_index (validate_bundle-Passes c repo_key s.owner)

  extensions_ask :
      Passes (for_entries (validate_extension c repo_key s.owner) s.extensions)
      ↔ ((k : Bytes) → IfSome (get k s.extensions) (ExtensionOk c repo_key s.owner k))
  extensions_ask =
      entries_iff _ s.extensions _ o.extensions (validate_extension-Passes c repo_key s.owner)

  description_asks :
      Passes (
        if_some s.description λ f. do
          check_size "description" (length f.value) max_description_bytes
          verify_payload c
              (payload repo_key (description f.value f.update_seq))
              s.owner
              f.signature
              "description")
      ↔ IfSome s.description (TextOk c repo_key s.owner description max_description_bytes)
  description_asks =
      IfSome-iff s.description _ _
        (text-Passes c repo_key s.owner "description" max_description_bytes description)

  default_branch_asks :
      Passes (
        if_some s.default_branch λ f. do
          check_size "default_branch" (length f.value) max_ref_name_bytes
          verify_payload c
              (payload repo_key (default_branch f.value f.update_seq))
              s.owner
              f.signature
              "default_branch")
      ↔ IfSome s.default_branch (TextOk c repo_key s.owner default_branch max_ref_name_bytes)
  default_branch_asks =
      IfSome-iff s.default_branch _ _
        (text-Passes c repo_key s.owner "default_branch" max_ref_name_bytes default_branch)

  accepted : Passes (validate_state c params s) → IsAuthorized c params s
  accepted h =
      let (len, h) = >>-Passes _ _ (sym validate_state-chain ∙ h) in
      let (decoded, h) = (ok_or-Passes _ _ _).0 h in
      let (prefix, h) = >>-Passes _ _ h in
      let (n, t) = (chain-Passes name_check field_checks).0 h in
      record {
        long_enough = ((length_guard _ _).0 len).0;
        short_enough = ((length_guard _ _).0 len).1;
        base58 = decoded;
        prefix_matches = (guard_eq _ _ _).0 prefix;
        name = name_asks.0 n;
        description = description_asks.0 t.0;
        default_branch = default_branch_asks.0 t.1.0;
        force_push_allowed =
            (signed_asks s.force_push_allowed force_push_allowed "force_push_allowed").0 t.1.1.0;
        acl = (signed_asks s.acl acl "acl").0 t.1.1.1.0;
        upgrade = (signed_asks s.upgrade upgrade "upgrade").0 t.1.1.1.1.0;
        refs = refs_ask.0 t.1.1.1.1.1.0;
        object_index = bundles_ask.0 t.1.1.1.1.1.1.0;
        extensions = extensions_ask.0 t.1.1.1.1.1.1.1.0;
      }

  authorized_accepted : IsAuthorized c params s → Passes (validate_state c params s)
  authorized_accepted h =
      validate_state-chain
      ∙ Passes->> _ _ ((length_guard _ _).1 (h.long_enough, h.short_enough)) (
          (ok_or-Passes _ _ _).1 (
            h.base58,
            Passes->> _ _ ((guard_eq _ _ _).1 h.prefix_matches) (
                (chain-Passes name_check field_checks).1 (
                  name_asks.1 h.name,
                  (
                    description_asks.1 h.description,
                    (
                      default_branch_asks.1 h.default_branch,
                      (
                        (signed_asks s.force_push_allowed force_push_allowed "force_push_allowed").1
                            h.force_push_allowed,
                        (
                          (signed_asks s.acl acl "acl").1 h.acl,
                          (
                            (signed_asks s.upgrade upgrade "upgrade").1 h.upgrade,
                            (
                              refs_ask.1 h.refs,
                              (bundles_ask.1 h.object_index, (extensions_ask.1 h.extensions, tt)),
                            ),
                          ),
                        ),
                      ),
                    ),
                  ),
                )),
          ))

-- A state whose maps are in key order is accepted exactly when it is authorised: its prefix is
-- within the limits, is base58 and is the owner's, and every field, ref, bundle and extension
-- is within its limits, belongs to the owner and carries the owner's signature over its
-- content in this repo. Of the name of a ref only the length is limited,
-- not the characters.
pub validate_state_iff :
    (c : Crypto) (params : RepoParams) (s : RepoState)
    → IsOrdered s
    → (validate_state c params s ≡ ok tt) ↔ IsAuthorized c params s
validate_state_iff c params s o = (accepted c params s o, authorized_accepted c params s o)
