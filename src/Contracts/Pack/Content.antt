-- ===== src/Contracts/Pack/Content.antt =====
-- A pack contract holds the one content that its parameters name.
use freenet_git.Prelude.{
  ℕ, ◌≡◌, sym, ◌↔◌, Bytes, List, [], ◌∷◌, length, All, ap, ◌==◌, not, if◌then◌else◌, true, Bool,
  arith,
}
use freenet_git.BTreeMap.Order.{eqb, eqb→eq, eqb_refl}
use freenet_git.Crypto.{Crypto}
use freenet_git.Outcome.{ok, err, >>=-ok}
use freenet_git.Contracts.{UpdateData, full_state}
use freenet_git.Contracts.Pack.{Error, validate_state, update_loop, update_state}

module _ (c : Crypto) (parameters : Bytes) where
  -- The named content.
  pub record IsPack (state : Bytes) : Type 0 where
    pub size : length parameters ≡ 32
    pub hash : c.blake3 state ≡ parameters

  passes :
      (len : ℕ) (b : Bool) (e f : Error)
      → ((if not (len == 32) then err e else if b then ok (tt {0}) else err f) ≡ ok (tt {0}))
        ↔ ((len ≡ 32) × (b ≡ true))
  passes len b e f = ground arith

  pub validate_state-IsPack : (s : Bytes) → (validate_state c parameters s ≡ ok tt) ↔ IsPack s
  unfolding validate_state
  validate_state-IsPack s =
      let p = passes (length parameters) (eqb (c.blake3 s) parameters) _ _ in
      (
        λ h. record { size = (p.0 h).0; hash = eqb→eq _ _ (p.0 h).1 },
        λ q. p.1 (q.size, rw q.hash (eqb_refl parameters)),
      )

  -- A full state that is the named content.
  abbrev pub Delivers : UpdateData → Type 0
  Delivers (full_state s) = IsPack s
  Delivers u = ⊥

  -- The content that the last full state brings.
  abbrev pub last_state : Bytes → List UpdateData → Bytes
  last_state s [] = s
  last_state s (full_state x ∷ us) = last_state x us
  last_state s (u ∷ us) = last_state s us

  -- The updates succeed exactly if each of them is a full state that is the named content, so that
  -- delivering again what is held succeeds; what is held then is what the last of them brings.
  pub update_state_iff :
      (s : Bytes) (us : List UpdateData) (out : Bytes)
      → (update_state c parameters s us ≡ ok out) ↔ (All Delivers us × (last_state s us ≡ out))
  unfolding update_state update_loop
  update_state_iff s [] out = (λ h. (tt, ground arith), λ h. ap ok h.1)
  update_state_iff s (full_state x ∷ us) out =
      let ih = update_state_iff x us out in
      (
        λ h.
            let (t, v, r) =
              >>=-ok (validate_state c parameters x) (λ _. update_loop c parameters us x) out h in
            let (a, l) = ih.0 r in (((validate_state-IsPack x).0 v, a), l),
        λ h. rw ((validate_state-IsPack x).1 h.0.0) (ih.1 (h.0.1, h.1)),
      )
  update_state_iff s (u ∷ us) out = (λ h. absurd (ground arith), λ h. absurd h.0.0)

  last_state-IsPack :
      (s : Bytes) (us : List UpdateData) → IsPack s → All Delivers us → IsPack (last_state s us)
  last_state-IsPack s [] p h = p
  last_state-IsPack s (full_state x ∷ us) p h = last_state-IsPack x us h.0 h.1
  last_state-IsPack s (u ∷ us) p h = absurd h.0

  -- If the content held is the named one, then no update replaces it by anything else: what is held
  -- after a successful update is again content with the hash that the parameters name.
  pub update_state-IsPack :
      (s : Bytes) (us : List UpdateData) (out : Bytes)
      → IsPack s
      → update_state c parameters s us ≡ ok out
      → IsPack out
  update_state-IsPack s us out p h =
      let (a, l) = (update_state_iff s us out).0 h in rw (sym l) (last_state-IsPack s us p a)
