-- ===== src/Repo/Validate/Checks.antt =====
-- When each of the checks of `validate_state` passes.
use Prim.Native.String.{String}
use freenet_git.Prelude.{ℕ, ◌≤◌, ◌≡◌, refl, ◌↔◌, Option, none, some, List, [], ◌∷◌, Bytes, arith}
use freenet_git.Prelude.{All, true, not, if◌then◌else◌, Bool-cases, inl, inr}
use freenet_git.BTreeMap.{BTreeMap, get}
use freenet_git.BTreeMap.Order.{eqb, eqb→eq, eqb_refl}
use freenet_git.BTreeMap.Laws.{IsSorted, Above, get_nil, get-cons, get-Above}
use freenet_git.Crypto.{Crypto}
use freenet_git.Outcome.{ok, err, panic, ◌>>◌}
use freenet_git.Repo.State.{ValidateError}
use freenet_git.Repo.Validate.{
  Check, check_size, if_some, verify_signature, verify_payload, for_entries,
}

-- A check passes.
abbrev pub Passes : Check → Type 0
Passes m = m ≡ ok tt

-- A predicate on what an option holds, if anything.
abbrev pub IfSome : {A : Type 0} → Option A → (A → Type 0) → Type 0
IfSome none P = Unit
IfSome (some a) P = P a

pub >>-Passes : (m k : Check) → Passes (m >> k) → Passes m × Passes k
>>-Passes (ok tt) k h = (refl, h)
>>-Passes (err e) k h = absurd (ground arith)
>>-Passes panic k h = absurd (ground arith)

pub Passes->> : (m k : Check) → Passes m → Passes k → Passes (m >> k)
Passes->> m k h g = rw h g

pub check_size-Passes : (f : String) (len max : ℕ) → Passes (check_size f len max) ↔ (len ≤ max)
unfolding check_size
check_size-Passes f len max = ground arith

pub if_some-Passes :
    {A : Type 0} (o : Option A) (f : A → Check)
    → Passes (if_some o f) ↔ IfSome o (λ a. Passes (f a))
if_some-Passes none f = (λ h. tt, λ h. refl)
if_some-Passes (some a) f = (λ h. h, λ h. h)

pub IfSome-imp :
    {A : Type 0} (o : Option A) (P Q : A → Type 0) → ((a : A) → P a → Q a) → IfSome o P → IfSome o Q
IfSome-imp none P Q f h = tt
IfSome-imp (some a) P Q f h = f a h

-- The guard that two byte strings are equal.
pub guard_eq :
    (a b : Bytes) (e : ValidateError) → Passes (if not (eqb a b) then err e else ok tt) ↔ (a ≡ b)
guard_eq a b e = (λ h. ground (arith, eqb→eq a b), λ h. rw (h, eqb_refl))

module _ {V : Type 0} (f : Bytes → V → Check) where
  entry-Passes :
      (k j : Bytes) (w : V) (m : BTreeMap V)
      → Passes (f j w)
      → IfSome (get k m) (λ v. Passes (f k v))
      → IfSome (get k ((j, w) ∷ m)) (λ v. Passes (f k v))
  entry-Passes k j w m p h = elim (Bool-cases (eqb k j)) [
    | inl e ↦ rw (get-cons, e) (rw (eqb→eq k j e) p)
    | inr e ↦ rw (get-cons, e) h
  ]

  tail-Passes :
      (k j : Bytes) (w : V) (m : BTreeMap V)
      → Above j m
      → IfSome (get k ((j, w) ∷ m)) (λ v. Passes (f k v))
      → IfSome (get k m) (λ v. Passes (f k v))
  tail-Passes k j w m a h = elim (Bool-cases (eqb k j)) [
    | inl e ↦ rw (eqb→eq k j e, get-Above j m a) tt
    | inr e ↦ rw (get-cons, e) at h
  ]

  head-Passes :
      (j : Bytes) (w : V) (m : BTreeMap V)
      → IfSome (get j ((j, w) ∷ m)) (λ v. Passes (f j v))
      → Passes (f j w)
  head-Passes j w m h = rw (get-cons, eqb_refl) at h

  -- The loop passes exactly when every entry of the map does.
  pub for_entries-Passes :
      (m : BTreeMap V)
      → IsSorted m
      → Passes (for_entries f m) ↔ ((k : Bytes) → IfSome (get k m) (λ v. Passes (f k v)))
  unfolding for_entries
  for_entries-Passes [] s = (λ h k. rw (get_nil {V = V} k) tt, λ h. refl)
  for_entries-Passes ((j, w) ∷ m) s =
      let ih = for_entries-Passes m s.1 in
      (
        λ h k.
            let (p, q) = >>-Passes (f j w) (for_entries f m) h in entry-Passes k j w m p (ih.0 q k),
        λ h.
            Passes->> (f j w) (for_entries f m) (head-Passes j w m (h j))
              (ih.1 (λ k. tail-Passes k j w m s.0 (h k))),
      )

-- The signer's key verifies the signature over the payload.
pub record Signed (c : Crypto) (signer : Bytes) (payload : Option Bytes) (signature : Bytes)
    : Type 0 where
  pub message : Bytes
  pub built : payload ≡ some message
  pub pk : c.VerifyKey
  pub key_parses : c.key_from_slice signer ≡ some pk
  pub sig : c.VerifySig
  pub sig_parses : c.sig_from_slice signature ≡ some sig
  pub verified : c.verify pk message sig ≡ true

signed_of :
    (c : Crypto) (payload : Option Bytes) (signer signature : Bytes) (label : String)
    → Passes (verify_payload c payload signer signature label)
    → Signed c signer payload signature
unfolding verify_signature
signed_of c none signer signature label h = absurd (ground arith)
signed_of c (some m) signer signature label h =
    parsed (c.key_from_slice signer) refl (c.sig_from_slice signature) refl
  where
    parsed :
        (k : Option c.VerifyKey)
        → c.key_from_slice signer ≡ k
        → (s : Option c.VerifySig) → c.sig_from_slice signature ≡ s
        → Signed c signer (some m) signature
    parsed none ek s es = absurd (ground arith)
    parsed (some k) ek none es = absurd (ground arith)
    parsed (some k) ek (some s) es = record {
      message = m;
      built = refl;
      pk = k;
      key_parses = ek;
      sig = s;
      sig_parses = es;
      verified = ground arith;
    }

pub verify_payload-Passes :
    (c : Crypto) (payload : Option Bytes) (signer signature : Bytes) (label : String)
    → Passes (verify_payload c payload signer signature label) ↔ Signed c signer payload signature
unfolding verify_signature
verify_payload-Passes c payload signer signature label = (
  λ h. signed_of c payload signer signature label h,
  λ s. rw (s.built, s.key_parses, s.sig_parses, s.verified),
)

-- A first check and the ones after it, in turn.
abbrev pub chain : Check → List Check → Check
chain m [] = m
chain m (n ∷ ns) = m >> chain n ns

pub chain-Passes : (m : Check) (ns : List Check) → Passes (chain m ns) ↔ (Passes m × All Passes ns)
chain-Passes m [] = (λ h. (h, tt), λ h. h.0)
chain-Passes m (n ∷ ns) =
    let ih = chain-Passes n ns in
    (
      λ h. let (p, q) = >>-Passes m (chain n ns) h in (p, ih.0 q),
      λ h. Passes->> m (chain n ns) h.0 (ih.1 (h.1.0, h.1.1)),
    )
