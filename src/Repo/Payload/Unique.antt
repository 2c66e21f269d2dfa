-- ===== src/Repo/Payload/Unique.antt =====
-- A payload determines the repo key and the content that were signed: no two of them share bytes.
use freenet_git.Prelude.{
  ℕ, ◌^◌, ◌<◌, ◌≡◌, refl, sym, ◌∙◌, ap, Option, none, some, List, [], ◌∷◌, ◌++◌, Bytes,
}
use freenet_git.Prelude.{length, All, arith}
use freenet_git.BTreeMap.{BTreeMap}
use freenet_git.Encoding.LittleEndian.{to_le_bytes, to_le_bytes-injective}
use freenet_git.Encoding.Signed.{domain}
use freenet_git.Encoding.Signed.Fields.{fields-injective, build-put_fields}
use mathlib.Core.Option
use freenet_git.Repo.State.{WriterGrant, AclState}
use freenet_git.Repo.Payload.Content.{
  Content, name, description, default_branch, force_push_allowed, acl, upgrade, ref_update,
  object_bundle, extension, suffix, payload, option_field, grant_fields, contents, payload-build,
}

abbrev pub IsU64 : ℕ → Type 0
IsU64 n = n < 2 ^ 64

abbrev pub EpochFits : Option ℕ → Type 0
EpochFits none = Unit
EpochFits (some n) = IsU64 n

abbrev pub GrantFits : Bytes × WriterGrant → Type 0
GrantFits e = IsU64 (e.1).granted_at_epoch × EpochFits (e.1).revoked_at_epoch

-- The numbers are `u64`s, as the Rust types have it.
abbrev pub HasU64 : Content → Type 0
HasU64 (name v s) = IsU64 s
HasU64 (description v s) = IsU64 s
HasU64 (default_branch v s) = IsU64 s
HasU64 (force_push_allowed v s) = IsU64 s
HasU64 (acl a s) = IsU64 s × IsU64 a.epoch × All GrantFits a.grants
HasU64 (upgrade v s) = IsU64 s
HasU64 (ref_update n t s e) = IsU64 s × IsU64 e
HasU64 (object_bundle i e) = IsU64 e
HasU64 (extension k v s) = IsU64 s

le8 : (x y : ℕ) → IsU64 x → IsU64 y → to_le_bytes 8 x ≡ to_le_bytes 8 y → x ≡ y
le8 x y hx hy e = to_le_bytes-injective 8 x y (omega arith) (omega arith) e

snoc_injective :
    (xs ys : List Bytes) (a b : Bytes) → xs ++ (a ∷ []) ≡ ys ++ (b ∷ []) → (xs ≡ ys) × (a ≡ b)
snoc_injective [] [] a b e = (refl, cc)
snoc_injective [] (y ∷ []) a b e = absurd (omega (arith, ap length e))
snoc_injective [] (y ∷ z ∷ ys) a b e = absurd (omega (arith, ap length e))
snoc_injective (x ∷ []) [] a b e = absurd (omega (arith, ap length e))
snoc_injective (x ∷ z ∷ xs) [] a b e = absurd (omega (arith, ap length e))
snoc_injective (x ∷ xs) (y ∷ ys) a b e = let (t, l) = snoc_injective xs ys a b (cc) in (cc, l)

option_field-injective : (x y : Option Bytes) → option_field x ≡ option_field y → x ≡ y
option_field-injective none none e = refl
option_field-injective none (some y) e = absurd (ground arith)
option_field-injective (some x) none e = absurd (ground arith)
option_field-injective (some x) (some y) e = cc

le8_option :
    (x y : Option ℕ)
    → EpochFits x
    → EpochFits y
    → Option.map (to_le_bytes 8) x ≡ Option.map (to_le_bytes 8) y
    → x ≡ y
le8_option none none hx hy e = refl
le8_option none (some y) hx hy e = absurd (ground arith)
le8_option (some x) none hx hy e = absurd (ground arith)
le8_option (some x) (some y) hx hy e = ap some (le8 x y hx hy (cc))

grant_eq :
    (g h : WriterGrant)
    → g.granted_at_epoch ≡ h.granted_at_epoch
    → g.revoked_at_epoch ≡ h.revoked_at_epoch
    → g ≡ h
grant_eq g h p q = λ i. record { granted_at_epoch = p i; revoked_at_epoch = q i }

grant_fields-injective :
    (gs hs : BTreeMap WriterGrant)
    → All GrantFits gs
    → All GrantFits hs
    → grant_fields gs ≡ grant_fields hs
    → gs ≡ hs
grant_fields-injective [] [] fg fh e = refl
grant_fields-injective [] ((w, g) ∷ gs) fg fh e = absurd (ground arith)
grant_fields-injective ((w, g) ∷ gs) [] fg fh e = absurd (ground arith)
grant_fields-injective ((w, g) ∷ gs) ((u, h) ∷ hs) fg fh e =
    let granted = le8 g.granted_at_epoch h.granted_at_epoch fg.0.0 fh.0.0 (cc) in
    let revoked =
      le8_option g.revoked_at_epoch h.revoked_at_epoch fg.0.1 fh.0.1
        (option_field-injective _ _ (cc)) in
    let writer : w ≡ u = cc in
    cc (writer, grant_eq g h granted revoked, grant_fields-injective gs hs fg.1 fh.1 (cc))

acl_eq : (a b : AclState) → a.epoch ≡ b.epoch → a.grants ≡ b.grants → a ≡ b
acl_eq a b p q = λ i. record { epoch = p i; grants = q i }

-- Two contents of one domain with equal fields are equal. The nine suffixes differ in length.
contents-injective :
    (x y : Content) → HasU64 x → HasU64 y → suffix x ≡ suffix y → contents x ≡ contents y → x ≡ y
contents-injective (name v s) (name w t) hx hy d e = cc (le8 s t hx hy (cc))
contents-injective (description v s) (description w t) hx hy d e = cc (le8 s t hx hy (cc))
contents-injective (default_branch v s) (default_branch w t) hx hy d e = cc (le8 s t hx hy (cc))
contents-injective (force_push_allowed v s) (force_push_allowed w t) hx hy d e =
    let (refs, last) = snoc_injective v w (to_le_bytes 8 s) (to_le_bytes 8 t) (cc) in
    cc (refs, le8 s t hx hy last)
contents-injective (acl a s) (acl b t) hx hy d e =
    let (grants, last) =
      snoc_injective (grant_fields a.grants) (grant_fields b.grants) (to_le_bytes 8 s)
        (to_le_bytes 8 t) (cc) in
    cc (
      acl_eq a b (le8 a.epoch b.epoch hx.1 hy.1 (cc))
          (grant_fields-injective a.grants b.grants hx.2 hy.2 grants),
      le8 s t hx.0 hy.0 last,
    )
contents-injective (upgrade v s) (upgrade w t) hx hy d e =
    cc (option_field-injective v w (cc), le8 s t hx hy (cc))
contents-injective (ref_update n t s e) (ref_update n' t' s' e') hx hy d q =
    cc (le8 s s' hx.0 hy.0 (cc), le8 e e' hx.1 hy.1 (cc))
contents-injective (object_bundle i e) (object_bundle i' e') hx hy d q = cc (le8 e e' hx hy (cc))
contents-injective (extension k v s) (extension k' v' s') hx hy d q = cc (le8 s s' hx hy (cc))
contents-injective _ _ hx hy d q = absurd (omega (arith, ap length d))

-- With numbers that fit a u64, a payload's bytes determine the repo key and everything else
-- that was signed: payloads of two repos, two kinds of content, or two contents are never the
-- same bytes.
pub payload-injective :
    (repo_key repo_key' : Bytes) (x y : Content) (p : Bytes)
    → HasU64 x
    → HasU64 y
    → payload repo_key x ≡ some p
    → payload repo_key' y ≡ some p
    → (repo_key ≡ repo_key') × (x ≡ y)
payload-injective rk rk' x y p hx hy ex ey =
    let (fx, px) =
      build-put_fields (suffix x) (rk ∷ contents x) p (sym (payload-build rk x) ∙ ex) in
    let (fy, py) =
      build-put_fields (suffix y) (rk' ∷ contents y) p (sym (payload-build rk' y) ∙ ey) in
    let e =
      fields-injective (domain (suffix x) ∷ rk ∷ contents x) (domain (suffix y) ∷ rk' ∷ contents y)
        fx fy (sym px ∙ py) in
    (cc, contents-injective x y hx hy (cc) (cc))
