-- ===== src/Signing/Accepted.antt =====
-- What the owner's tools sign, `validate_state` accepts.
use freenet_git.Prelude.{
  ℕ, ◌≤◌, ◌≡◌, refl, ◌∙◌, Option, none, some, [], ◌∷◌, Bytes, length, All, arith,
}
use mathlib.Core.Option
use freenet_git.BTreeMap.Laws.{get_nil}
use freenet_git.Crypto.{Crypto, SignsVerify}
use freenet_git.Outcome.{ok}
use freenet_git.Encoding.LittleEndian.{to_le_bytes, length-to_le_bytes}
use freenet_git.Encoding.Signed.{domain}
use freenet_git.Encoding.Signed.Fields.{Fits, fields, build-fields}
use freenet_git.Repo.State.{
  RepoParams, SignedField, AclState, RepoState, default_state, RefEntry, max_name_bytes,
  max_description_bytes, max_ref_name_bytes, min_prefix_len, max_prefix_len,
}
use freenet_git.Repo.Payload.{params_repo_key}
use freenet_git.Repo.Payload.Content.{
  Content, name, description, default_branch, force_push_allowed, acl, upgrade, ref_update, payload,
  contents, suffix, payload-build,
}
use freenet_git.Repo.Validate.{pubkey_prefix, validate_state}
use freenet_git.Repo.Validate.Checks.{Signed}
use freenet_git.Repo.Validate.Authorized.{OwnerSigned, RefOk, IsAuthorized}
use freenet_git.Repo.Validate.Exact.{validate_state_iff}
use freenet_git.Signing.{
  domain_key, sign_string_field, sign_ref_list_field, sign_acl_field, sign_optional_repo_key_field,
  sign_ref_entry, initial_repo_state,
}

-- A content whose fields fit has a payload.
pub payload-Fits :
    (repo_key : Bytes) (x : Content)
    → All Fits (domain (suffix x) ∷ repo_key ∷ contents x)
    → payload repo_key x ≡ some (fields (domain (suffix x) ∷ repo_key ∷ contents x))
payload-Fits repo_key x h =
    payload-build repo_key x ∙ build-fields (suffix x) (repo_key ∷ contents x) h

-- What a new repo's state holds: the owner, the three texts, no other setting, and no entry.
pub record StartsWith (owner n d b : Bytes) (s : RepoState) : Type 0 where
  pub by_owner : s.owner ≡ owner
  pub name : Option.map (λ f. f.value) s.name ≡ some n
  pub description : Option.map (λ f. f.value) s.description ≡ some d
  pub default_branch : Option.map (λ f. f.value) s.default_branch ≡ some b
  pub force_push_allowed : Option.map (λ f. f.value) s.force_push_allowed ≡ some []
  pub acl : Option.map (λ f. f.value) s.acl ≡ some (record { epoch = 0; grants = [] })
  pub upgrade : Option.map (λ f. f.value) s.upgrade ≡ some none
  pub refs : s.refs ≡ []
  pub object_index : s.object_index ≡ []
  pub extensions : s.extensions ≡ []

module _ (c : Crypto) (sv : SignsVerify c) (key : c.SigningKey) where
  -- A signature made with the owner's key is the owner's.
  signed :
      (p : Option Bytes) (m : Bytes) → p ≡ some m → Signed c (c.verifying_key key) p (c.sign key m)
  signed p m e = record {
    message = m;
    built = e;
    pk = sv.key key;
    key_parses = sv.key_parses key;
    sig = sv.sig key m;
    sig_parses = sv.sig_parses key m;
    verified = sv.verifies key m;
  }

  module _ (params : RepoParams) where
    abbrev pub Owned : Content → Bytes → Type 0
    Owned = OwnerSigned c (domain_key c params key) (c.verifying_key key)

    abbrev pub bytes_of : Content → Bytes
    bytes_of x = fields (domain (suffix x) ∷ domain_key c params key ∷ contents x)

    abbrev pub AllFit : Content → Type 0
    AllFit x = All Fits (domain (suffix x) ∷ domain_key c params key ∷ contents x)

    pub owned : (x : Content) → AllFit x → Owned x (c.sign key (bytes_of x))
    owned x h =
        signed (payload (domain_key c params key) x) (bytes_of x)
          (payload-Fits (domain_key c params key) x h)

    -- With keys and signatures that verify: a ref entry that the owner signs is accepted for
    -- that ref, if its name is within the limit and its fields fit their length prefixes.
    pub sign_ref_entry_ok :
        (ref_name target : Bytes) (update_seq auth_epoch : ℕ)
        → length ref_name ≤ max_ref_name_bytes
        → AllFit (ref_update ref_name target update_seq auth_epoch)
        → (e : RefEntry) × (sign_ref_entry c params key ref_name target update_seq auth_epoch
            ≡ some e)
          × RefOk c (domain_key c params key) (c.verifying_key key) ref_name e
    unfolding sign_ref_entry payload
    sign_ref_entry_ok n t s e size h = (
      record {
        target = t;
        update_seq = s;
        updater = c.verifying_key key;
        auth_epoch = e;
        signature = c.sign key (bytes_of (ref_update n t s e));
      },
      rw (payload-Fits (domain_key c params key) (ref_update n t s e) h),
      record { size = size; by_owner = refl; signed = owned (ref_update n t s e) h },
    )

    -- What `RepoParams::from_owner` gives for an owner whose base58 key is long enough.
    pub record IsPrefix : Type 0 where
      pub long_enough : min_prefix_len ≤ length params.prefix
      pub short_enough : length params.prefix ≤ max_prefix_len
      pub base58 : (bs : Bytes) × (c.bs58_decode params.prefix ≡ some bs)
      pub matches : pubkey_prefix c (c.verifying_key key) (length params.prefix) ≡ params.prefix

    module _ (hash_length : (x : Bytes) → length (c.blake3 x) ≡ 32) where
      pub key-Fits : Fits (domain_key c params key)
      unfolding params_repo_key
      key-Fits = omega (arith, hash_length _)

      text-Fits :
          (v : Bytes)
          → length v ≤ 4096
          → All Fits (domain_key c params key ∷ v ∷ to_le_bytes 8 1 ∷ [])
      text-Fits v h = (key-Fits, (omega arith, (omega (arith, length-to_le_bytes 8 1), tt)))

      no_refs_fit : AllFit (force_push_allowed [] 1)
      no_refs_fit = (
        omega arith,
        (
          key-Fits,
          (omega (arith, length-to_le_bytes 4 0), (omega (arith, length-to_le_bytes 8 1), tt)),
        ),
      )

      empty_acl : AclState
      empty_acl = record { epoch = 0; grants = [] }

      empty_acl_fits : AllFit (acl (record { epoch = 0; grants = [] }) 1)
      empty_acl_fits = (
        omega arith,
        (
          key-Fits,
          (
            omega (arith, length-to_le_bytes 8 0),
            (omega (arith, length-to_le_bytes 4 0), (omega (arith, length-to_le_bytes 8 1), tt)),
          ),
        ),
      )

      no_upgrade_fits : AllFit (upgrade none 1)
      no_upgrade_fits =
          (omega arith, (key-Fits, (omega arith, (omega (arith, length-to_le_bytes 8 1), tt))))

      abbrev first : {T : Type 0} → T → Content → SignedField T
      first v x = record { value = v; update_seq = 1; signature = c.sign key (bytes_of x) }

      abbrev created : Bytes → Bytes → Bytes → RepoState
      created n d b = record default_state {
        owner = c.verifying_key key;
        name = some (first n (name n 1));
        description = some (first d (description d 1));
        default_branch = some (first b (default_branch b 1));
        force_push_allowed = some (first [] (force_push_allowed [] 1));
        acl =
            some (
              first (record { epoch = 0; grants = [] })
                (acl (record { epoch = 0; grants = [] }) 1));
        upgrade = some (first none (upgrade none 1));
      }

      created-IsAuthorized :
          (n d b : Bytes)
          → length n ≤ max_name_bytes
          → length d ≤ max_description_bytes
          → length b ≤ max_ref_name_bytes
          → IsPrefix
          → IsAuthorized c params (created n d b)
      created-IsAuthorized n d b hn hd hb p = record {
        long_enough = p.long_enough;
        short_enough = p.short_enough;
        base58 = p.base58;
        prefix_matches = p.matches;
        name = record {
          size = hn;
          signed = owned (name n 1) (omega arith, text-Fits n (omega arith));
        };
        description = record {
          size = hd;
          signed = owned (description d 1) (omega arith, text-Fits d (omega arith));
        };
        default_branch = record {
          size = hb;
          signed = owned (default_branch b 1) (omega arith, text-Fits b (omega arith));
        };
        force_push_allowed = owned (force_push_allowed [] 1) no_refs_fit;
        acl = owned (acl (record { epoch = 0; grants = [] }) 1) empty_acl_fits;
        upgrade = owned (upgrade none 1) no_upgrade_fits;
        refs = λ k. rw (get_nil k) tt;
        object_index = λ k. rw (get_nil k) tt;
        extensions = λ k. rw (get_nil k) tt;
      }

      initial_repo_state-created :
          (n d b : Bytes)
          → length n ≤ max_name_bytes
          → length d ≤ max_description_bytes
          → length b ≤ max_ref_name_bytes
          → initial_repo_state c params key n d b ≡ some (created n d b)
      unfolding initial_repo_state sign_string_field sign_ref_list_field sign_acl_field
          sign_optional_repo_key_field payload
      initial_repo_state-created n d b hn hd hb = rw (
        payload-Fits _ (name n 1) (omega arith, text-Fits n (omega arith)),
        payload-Fits _ (description d 1) (omega arith, text-Fits d (omega arith)),
        payload-Fits _ (default_branch b 1) (omega arith, text-Fits b (omega arith)),
        payload-Fits _ (force_push_allowed [] 1) no_refs_fit,
        payload-Fits _ (acl (record { epoch = 0; grants = [] }) 1) empty_acl_fits,
        payload-Fits _ (upgrade none 1) no_upgrade_fits,
      )

      -- With keys and signatures that verify and a hash of 32 bytes: if the owner's key gives
      -- the prefix and the three texts are within their limits, whatever their characters, then the
      -- state that a new repo starts with is built, it holds the owner's key, the three texts as they
      -- are, an empty list of force-push refs, an ACL without grants, no upgrade and no ref, bundle
      -- or extension, and it is accepted.
      pub initial_repo_state_ok :
          (n d b : Bytes)
          → length n ≤ max_name_bytes
          → length d ≤ max_description_bytes
          → length b ≤ max_ref_name_bytes
          → IsPrefix
          → (s : RepoState) × (initial_repo_state c params key n d b ≡ some s)
            × StartsWith (c.verifying_key key) n d b s
            × (validate_state c params s ≡ ok tt)
      initial_repo_state_ok n d b hn hd hb p = (
        created n d b,
        initial_repo_state-created n d b hn hd hb,
        record {
          by_owner = refl;
          name = refl;
          description = refl;
          default_branch = refl;
          force_push_allowed = refl;
          acl = refl;
          upgrade = refl;
          refs = refl;
          object_index = refl;
          extensions = refl;
        },
        (validate_state_iff c params (created n d b)
              (record { refs = tt; object_index = tt; extensions = tt })).1
            (created-IsAuthorized n d b hn hd hb p),
      )
