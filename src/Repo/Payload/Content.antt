-- ===== src/Repo/Payload/Content.antt =====
-- Everything an owner signs, in one type, with the payload that the code signs for it.
use freenet_git.Prelude.{ℕ, ◌≡◌, refl, sym, ◌∙◌, Option, none, some, List, [], ◌∷◌, ◌++◌, Bytes}
use freenet_git.Prelude.{bytes, length}
use freenet_git.BTreeMap.{BTreeMap}
use freenet_git.Encoding.LittleEndian.{to_le_bytes}
use freenet_git.Encoding.Signed.{
  Builder, ◌>>=◌, field_bytes, field_str, field_u32, field_u64, field_option_bytes, build,
}
use freenet_git.Encoding.Signed.Fields.{put_fields}
use mathlib.Core.Option
use freenet_git.Repo.State.{WriterGrant, AclState}
use freenet_git.Repo.Payload.{
  signed_payload_string_field, field_strs, saturating_u32, signed_payload_ref_list_field,
  field_grants, signed_payload_acl_field, signed_payload_optional_repo_key_field,
  signed_payload_ref_entry, signed_payload_extension,
}

pub data Content : Type 0 where
  -- A value and a sequence number.
  name description default_branch : Bytes → ℕ → Content
  force_push_allowed : List Bytes → ℕ → Content
  acl : AclState → ℕ → Content
  upgrade : Option Bytes → ℕ → Content
  -- The name of the ref, its target, the sequence number and the epoch.
  ref_update : Bytes → Bytes → ℕ → ℕ → Content
  -- The bundle's id and the epoch.
  object_bundle : Bytes → ℕ → Content
  -- The key, the value and the sequence number.
  extension : Bytes → Bytes → ℕ → Content

-- The domain suffix.
abbrev pub suffix : Content → Bytes
suffix (name v s) = bytes "name"
suffix (description v s) = bytes "description"
suffix (default_branch v s) = bytes "default_branch"
suffix (force_push_allowed v s) = bytes "force_push_allowed"
suffix (acl v s) = bytes "acl"
suffix (upgrade v s) = bytes "upgrade"
suffix (ref_update n t s e) = bytes "ref-update"
suffix (object_bundle i e) = bytes "object-bundle"
suffix (extension k v s) = bytes "extension"

-- The payload that the code builds.
unfoldable pub payload : Bytes → Content → Option Bytes
payload repo_key (name v s) = signed_payload_string_field repo_key (bytes "name") v s
payload repo_key (description v s) = signed_payload_string_field repo_key (bytes "description") v s
payload repo_key (default_branch v s) =
    signed_payload_string_field repo_key (bytes "default_branch") v s
payload repo_key (force_push_allowed v s) =
    signed_payload_ref_list_field repo_key (bytes "force_push_allowed") v s
payload repo_key (acl v s) = signed_payload_acl_field repo_key (bytes "acl") v s
payload repo_key (upgrade v s) =
    signed_payload_optional_repo_key_field repo_key (bytes "upgrade") v s
payload repo_key (ref_update n t s e) = signed_payload_ref_entry repo_key n t s e
payload repo_key (object_bundle i e) =
    build (bytes "object-bundle")
      λ b. do b ← field_bytes repo_key b; b ← field_bytes i b; field_u64 e b
payload repo_key (extension k v s) = signed_payload_extension repo_key k v s

abbrev pub option_field : Option Bytes → Bytes
option_field none = 0 ∷ []
option_field (some x) = 1 ∷ x

abbrev pub grant_fields : BTreeMap WriterGrant → List Bytes
grant_fields [] = []
grant_fields ((w, g) ∷ gs) =
    w
    ∷ to_le_bytes 8 g.granted_at_epoch
    ∷ option_field (Option.map (to_le_bytes 8) g.revoked_at_epoch)
    ∷ grant_fields gs

-- The fields behind the repo key.
abbrev pub contents : Content → List Bytes
contents (name v s) = v ∷ to_le_bytes 8 s ∷ []
contents (description v s) = v ∷ to_le_bytes 8 s ∷ []
contents (default_branch v s) = v ∷ to_le_bytes 8 s ∷ []
contents (force_push_allowed v s) =
    to_le_bytes 4 (saturating_u32 (length v)) ∷ (v ++ (to_le_bytes 8 s ∷ []))
contents (acl a s) =
    to_le_bytes 8 a.epoch
    ∷ to_le_bytes 4 (saturating_u32 (length a.grants))
    ∷ (grant_fields a.grants ++ (to_le_bytes 8 s ∷ []))
contents (upgrade v s) = option_field v ∷ to_le_bytes 8 s ∷ []
contents (ref_update n t s e) = n ∷ t ∷ to_le_bytes 8 s ∷ to_le_bytes 8 e ∷ []
contents (object_bundle i e) = i ∷ to_le_bytes 8 e ∷ []
contents (extension k v s) = k ∷ v ∷ to_le_bytes 8 s ∷ []

bind_some {ℓ} : {A : Type ℓ} (m : Option A) → (m >>= λ a. some a) ≡ m
bind_some none = refl
bind_some (some a) = refl

bind_congr {ℓ κ} :
    {A : Type ℓ} {B : Type κ} (m : Option A) (f g : A → Option B)
    → ((a : A) → f a ≡ g a)
    → (m >>= f) ≡ (m >>= g)
bind_congr none f g h = refl
bind_congr (some a) f g h = h a

bind_assoc {ℓ κ μ} :
    {A : Type ℓ} {B : Type κ} {C : Type μ} (m : Option A) (f : A → Option B) (g : B → Option C)
    → ((m >>= f) >>= g) ≡ (m >>= λ a. f a >>= g)
bind_assoc none f g = refl
bind_assoc (some a) f g = refl

-- A run of fields, then whatever follows.
put_fields-append :
    (xs ys : List Bytes) (b : Builder)
    → put_fields (xs ++ ys) b ≡ (put_fields xs b >>= put_fields ys)
unfolding put_fields
put_fields-append [] ys b = refl
put_fields-append (x ∷ xs) ys b =
    bind_congr (field_bytes x b) _ _ (λ c. put_fields-append xs ys c)
    ∙ sym (bind_assoc (field_bytes x b) (put_fields xs) (put_fields ys))

field_strs-put_fields : (refs : List Bytes) (b : Builder) → field_strs refs b ≡ put_fields refs b
unfolding field_strs put_fields field_str
field_strs-put_fields [] b = refl
field_strs-put_fields (r ∷ refs) b =
    bind_congr (field_bytes r b) _ _ (λ c. field_strs-put_fields refs c)

field_option_bytes-field :
    (o : Option Bytes) (b : Builder) → field_option_bytes o b ≡ field_bytes (option_field o) b
unfolding field_option_bytes
field_option_bytes-field none b = refl
field_option_bytes-field (some x) b = refl

field_grants-put_fields :
    (gs : BTreeMap WriterGrant) (b : Builder) → field_grants gs b ≡ put_fields (grant_fields gs) b
unfolding field_grants put_fields field_u64
field_grants-put_fields [] b = refl
field_grants-put_fields ((w, g) ∷ gs) b =
    simp (field_option_bytes-field, field_grants-put_fields gs)

-- The last field of a payload is written by the closing call.
put_fields-last :
    (xs : List Bytes) (x : Bytes) (b : Builder)
    → put_fields (xs ++ (x ∷ [])) b ≡ (put_fields xs b >>= field_bytes x)
unfolding put_fields
put_fields-last xs x b =
    put_fields-append xs (x ∷ []) b
    ∙ bind_congr (put_fields xs b) _ _ (λ c. bind_some (field_bytes x c))

ruleset as_fields = (
  field_option_bytes-field, field_strs-put_fields, field_grants-put_fields, put_fields-last,
  bind_some,
)

-- Each payload is the domain, the repo key and the fields of its content.
pub payload-build :
    (repo_key : Bytes) (x : Content)
    → payload repo_key x ≡ build (suffix x) (put_fields (repo_key ∷ contents x))
unfolding payload signed_payload_string_field field_str field_u64 field_u32 put_fields build
payload-build rk (name v s) = simp as_fields
payload-build rk (description v s) = simp as_fields
payload-build rk (default_branch v s) = simp as_fields
payload-build rk (force_push_allowed v s) = unfold signed_payload_ref_list_field in simp as_fields
payload-build rk (acl a s) = unfold signed_payload_acl_field in simp as_fields
payload-build rk (upgrade v s) = unfold signed_payload_optional_repo_key_field in simp as_fields
payload-build rk (ref_update n t s e) = unfold signed_payload_ref_entry in simp as_fields
payload-build rk (object_bundle i e) = simp as_fields
payload-build rk (extension k v s) = unfold signed_payload_extension in simp as_fields
