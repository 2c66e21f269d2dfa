-- ===== src/Repo/Validate/Authorized.antt =====
-- `validate_state` against a description of what the owner has authorised.
use Prim.Native.String.{String}
use freenet_git.Prelude.{ℕ, ◌≤◌, ◌≡◌, refl, ◌↔◌, Option, none, some, Bytes}
use freenet_git.Prelude.{ltb, ◌||◌, if◌then◌else◌, arith, length}
use freenet_git.BTreeMap.{get}
use freenet_git.Crypto.{Crypto}
use freenet_git.Outcome.{ok, err, ◌>>=◌, ◌>>◌, ok_or}
use freenet_git.Repo.State.{
  RepoParams, SignedField, RefEntry, ObjectBundleRecord, ExtensionEntry, RepoState, ValidateError,
  max_name_bytes, max_description_bytes, max_ref_name_bytes, max_extension_key_bytes,
  max_extension_value_bytes, min_prefix_len, max_prefix_len,
}
use freenet_git.Repo.Payload.{id, params_repo_key, signed_payload_bundle_record}
use freenet_git.Repo.Payload.Content.{
  Content, name, description, default_branch, force_push_allowed, acl, upgrade, ref_update,
  object_bundle, extension, payload,
}
use freenet_git.Repo.Validate.{
  Check, check_size, pubkey_prefix, verify_payload, verify_ref_entry, verify_bundle_record,
  verify_extension_entry, validate_ref, validate_bundle, validate_extension,
}
use freenet_git.Repo.Validate.Checks.{
  Passes, IfSome, >>-Passes, Passes->>, check_size-Passes, guard_eq, Signed, verify_payload-Passes,
}

module _ (c : Crypto) (repo_key owner : Bytes) where
  -- The owner signed this content of this repo.
  abbrev pub OwnerSigned : Content → Bytes → Type 0
  OwnerSigned x signature = Signed c owner (payload repo_key x) signature

  pub record RefOk (ref_name : Bytes) (e : RefEntry) : Type 0 where
    pub size : length ref_name ≤ max_ref_name_bytes
    pub by_owner : e.updater ≡ owner
    pub signed : OwnerSigned (ref_update ref_name e.target e.update_seq e.auth_epoch) e.signature

  pub record BundleOk (bundle_id : Bytes) (r : ObjectBundleRecord) : Type 0 where
    pub has_id : id c r.bundle ≡ bundle_id
    pub by_owner : r.added_by ≡ owner
    pub signed : OwnerSigned (object_bundle bundle_id r.auth_epoch) r.signature

  pub record ExtensionOk (key : Bytes) (e : ExtensionEntry) : Type 0 where
    pub key_size : length key ≤ max_extension_key_bytes
    pub value_size : length e.value ≤ max_extension_value_bytes
    pub signed : OwnerSigned (extension key e.value e.update_seq) e.signature

  -- A text field within its limit.
  pub record TextOk (content : Bytes → ℕ → Content) (max : ℕ) (f : SignedField Bytes) : Type 0 where
    pub size : length f.value ≤ max
    pub signed : OwnerSigned (content f.value f.update_seq) f.signature

  pub validate_ref-Passes :
      (k : Bytes) (e : RefEntry) → Passes (validate_ref c repo_key owner k e) ↔ RefOk k e
  unfolding validate_ref verify_ref_entry payload
  validate_ref-Passes k e = (
    λ h.
        let (p, h) = >>-Passes _ _ h in
        let (q, r) = >>-Passes _ _ h in
        let by = (guard_eq e.updater owner _).0 q in
        record {
          size = (check_size-Passes "ref name" (length k) max_ref_name_bytes).0 p;
          by_owner = by;
          signed = rw by at ((verify_payload-Passes c _ e.updater e.signature "ref entry").0 r);
        },
    λ o. Passes->> _ _ ((check_size-Passes "ref name" (length k) max_ref_name_bytes).1 o.size) (
        Passes->> _ _ ((guard_eq e.updater owner _).1 o.by_owner) (
          (verify_payload-Passes c _ e.updater e.signature "ref entry").1
            (rw o.by_owner o.signed))),
  )

  pub validate_bundle-Passes :
      (k : Bytes) (r : ObjectBundleRecord)
      → Passes (validate_bundle c repo_key owner k r) ↔ BundleOk k r
  unfolding validate_bundle verify_bundle_record payload signed_payload_bundle_record
  validate_bundle-Passes k r = (
    λ h.
        let (p, h) = >>-Passes _ _ h in
        let (q, s) = >>-Passes _ _ h in
        let same = (guard_eq (id c r.bundle) k _).0 p in
        let by = (guard_eq r.added_by owner _).0 q in
        record {
          has_id = same;
          by_owner = by;
          signed =
              rw (by, same) at
                ((verify_payload-Passes c _ r.added_by r.signature "bundle record").0 s);
        },
    λ o. Passes->> _ _ ((guard_eq (id c r.bundle) k _).1 o.has_id) (
        Passes->> _ _ ((guard_eq r.added_by owner _).1 o.by_owner) (
          (verify_payload-Passes c _ r.added_by r.signature "bundle record").1
            (rw (o.by_owner, o.has_id) o.signed))),
  )

  pub validate_extension-Passes :
      (k : Bytes) (e : ExtensionEntry)
      → Passes (validate_extension c repo_key owner k e) ↔ ExtensionOk k e
  unfolding validate_extension verify_extension_entry payload
  validate_extension-Passes k e = (
    λ h.
        let (p, h) = >>-Passes _ _ h in
        let (q, s) = >>-Passes _ _ h in
        record {
          key_size = (check_size-Passes "extension key" (length k) max_extension_key_bytes).0 p;
          value_size =
              (check_size-Passes "extension value" (length e.value) max_extension_value_bytes).0 q;
          signed = (verify_payload-Passes c _ owner e.signature "extension entry").0 s;
        },
    λ o.
        Passes->> _ _
          ((check_size-Passes "extension key" (length k) max_extension_key_bytes).1 o.key_size)
          (Passes->> _ _
            ((check_size-Passes "extension value" (length e.value) max_extension_value_bytes).1
              o.value_size)
            ((verify_payload-Passes c _ owner e.signature "extension entry").1 o.signed)),
  )

  -- A text field: its size and its signature.
  pub text-Passes :
      (label : String) (max : ℕ) (content : Bytes → ℕ → Content) (f : SignedField Bytes)
      → Passes (do
        check_size label (length f.value) max
        verify_payload c (payload repo_key (content f.value f.update_seq)) owner f.signature label)
        ↔ TextOk content max f
  text-Passes label max content f = (
    λ h.
        let (p, s) = >>-Passes _ _ h in
        record {
          size = (check_size-Passes label (length f.value) max).0 p;
          signed = (verify_payload-Passes c _ owner f.signature label).0 s;
        },
    λ o.
        Passes->> _ _ ((check_size-Passes label (length f.value) max).1 o.size)
          ((verify_payload-Passes c _ owner f.signature label).1 o.signed),
  )

-- What a state must be to be accepted, with no mention of the order of the checks: the prefix is
-- that of the owner's key, and the owner signed every entry, each within its limits.
pub record IsAuthorized (c : Crypto) (params : RepoParams) (s : RepoState) : Type 0 where
  pub long_enough : min_prefix_len ≤ length params.prefix
  pub short_enough : length params.prefix ≤ max_prefix_len
  pub base58 : (bs : Bytes) × (c.bs58_decode params.prefix ≡ some bs)
  pub prefix_matches : pubkey_prefix c s.owner (length params.prefix) ≡ params.prefix
  pub name : IfSome s.name (TextOk c (params_repo_key c params s.owner) s.owner name max_name_bytes)
  pub description :
      IfSome s.description
        (TextOk c (params_repo_key c params s.owner) s.owner description max_description_bytes)
  pub default_branch :
      IfSome s.default_branch
        (TextOk c (params_repo_key c params s.owner) s.owner default_branch max_ref_name_bytes)
  pub force_push_allowed : IfSome s.force_push_allowed (λ f.
      OwnerSigned c
        (params_repo_key c params s.owner)
        s.owner
        (force_push_allowed f.value f.update_seq)
        f.signature)
  pub acl : IfSome s.acl (λ f.
      OwnerSigned c
        (params_repo_key c params s.owner)
        s.owner
        (acl f.value f.update_seq)
        f.signature)
  pub upgrade : IfSome s.upgrade (λ f.
      OwnerSigned c
        (params_repo_key c params s.owner)
        s.owner
        (upgrade f.value f.update_seq)
        f.signature)
  pub refs :
      (k : Bytes) → IfSome (get k s.refs) (RefOk c (params_repo_key c params s.owner) s.owner k)
  pub object_index :
      (k : Bytes)
      → IfSome (get k s.object_index) (BundleOk c (params_repo_key c params s.owner) s.owner k)
  pub extensions :
      (k : Bytes)
      → IfSome (get k s.extensions) (ExtensionOk c (params_repo_key c params s.owner) s.owner k)

pub length_guard :
    (len : ℕ) (e : ValidateError)
    → Passes (if ltb len min_prefix_len || ltb max_prefix_len len then err e else ok tt)
      ↔ ((min_prefix_len ≤ len) × (len ≤ max_prefix_len))
length_guard len e = ground arith

pub ok_or-Passes :
    {A : Type 0} (o : Option A) (e : ValidateError) (k : Check)
    → Passes (ok_or e o >>= λ _. k) ↔ (((a : A) × (o ≡ some a)) × Passes k)
ok_or-Passes none e k = (λ h. absurd (ground arith), λ p. absurd (ground arith))
ok_or-Passes (some a) e k = (λ h. ((a, refl), h), λ p. p.1)
