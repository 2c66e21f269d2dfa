-- ===== src/Contracts/RepoContract/Loop.antt =====
-- What holds of the state that `update_state` of the repo contract returns, whatever the updates.
use Prim.Native.String.{String}
use freenet_git.Prelude.{ℕ, ◌≡◌, refl, sym, ◌∙◌, Option, none, some, List, [], ◌∷◌, Bytes, arith}
use freenet_git.Crypto.{Crypto}
use freenet_git.Outcome.{ok, >>=-ok, map_err-ok, ok_injective}
use freenet_git.Repo.State.{RepoParams, RepoState, default_state, IsOrdered}
use freenet_git.Repo.Validate
use freenet_git.Repo.Merge
use freenet_git.Repo.Merge.{merge_state}
use freenet_git.Repo.Merge.Newer.{Newer, IsNewer, merge_state-IsNewer}
use freenet_git.Repo.Merge.Valid.{update_state_outcome}
use freenet_git.Contracts.{UpdateData, full_state, delta, state_and_delta}
use freenet_git.Contracts.Bincode.{Bincode, RoundTrips, state_from_bytes}
use freenet_git.Contracts.RepoContract.{
  decode_params, decode_state, apply, update_one, update_loop, update_state,
}

Newer-refl : {V : Type 0} (seq : V → ℕ) (x : Option V) → Newer seq x x
Newer-refl seq none = tt
Newer-refl seq (some a) = omega arith

Newer-trans :
    {V : Type 0} (seq : V → ℕ) (x y z : Option V) → Newer seq x y → Newer seq y z → Newer seq x z
Newer-trans seq none y z p q = tt
Newer-trans seq (some a) none z p q = absurd p
Newer-trans seq (some a) (some b) none p q = absurd q
Newer-trans seq (some a) (some b) (some c) p q = omega arith

IsNewer-refl : (s : RepoState) → IsNewer s s
IsNewer-refl s = record {
  name = Newer-refl _ s.name;
  description = Newer-refl _ s.description;
  default_branch = Newer-refl _ s.default_branch;
  force_push_allowed = Newer-refl _ s.force_push_allowed;
  acl = Newer-refl _ s.acl;
  upgrade = Newer-refl _ s.upgrade;
  refs = λ k. Newer-refl _ _;
  object_index = λ k. Newer-refl _ _;
  extensions = λ k. Newer-refl _ _;
}

IsNewer-trans : (a b c : RepoState) → IsNewer a b → IsNewer b c → IsNewer a c
IsNewer-trans a b c p q = record {
  name = Newer-trans _ a.name b.name c.name p.name q.name;
  description = Newer-trans _ a.description b.description c.description p.description q.description;
  default_branch =
      Newer-trans _ a.default_branch b.default_branch c.default_branch p.default_branch
        q.default_branch;
  force_push_allowed =
      Newer-trans _ a.force_push_allowed b.force_push_allowed c.force_push_allowed
        p.force_push_allowed q.force_push_allowed;
  acl = Newer-trans _ a.acl b.acl c.acl p.acl q.acl;
  upgrade = Newer-trans _ a.upgrade b.upgrade c.upgrade p.upgrade q.upgrade;
  refs = λ k. Newer-trans _ _ _ _ (p.refs k) (q.refs k);
  object_index = λ k. Newer-trans _ _ _ _ (p.object_index k) (q.object_index k);
  extensions = λ k. Newer-trans _ _ _ _ (p.extensions k) (q.extensions k);
}

pub default-IsOrdered : IsOrdered default_state
default-IsOrdered = record { refs = tt; object_index = tt; extensions = tt }

module _ (b : Bincode) (rt : RoundTrips b) where
  pub decode_state-IsOrdered : (x : Bytes) (s : RepoState) → decode_state b x ≡ ok s → IsOrdered s
  unfolding decode_state state_from_bytes
  decode_state-IsOrdered [] s h = rw (sym (ok_injective default_state s _ refl h)) default-IsOrdered
  decode_state-IsOrdered (x ∷ xs) s h =
      rt.state_ordered s (x ∷ xs) (map_err-ok _ _ s (map_err-ok _ _ s h))

  module _ (c : Crypto) (params : RepoParams) where
    -- `m` is a later state of the repo of `s`: of one owner, nothing lost, and valid if `s` is.
    pub record IsLater (s m : RepoState) : Type 0 where
      pub same_owner : m.owner ≡ s.owner
      pub newer : IsNewer s m
      pub valid :
          Validate.validate_state c params s ≡ ok tt → Validate.validate_state c params m ≡ ok tt

    IsLater-refl : (s : RepoState) → IsLater s s
    IsLater-refl s = record { same_owner = refl; newer = IsNewer-refl s; valid = λ v. v }

    IsLater-trans : (s m n : RepoState) → IsLater s m → IsLater m n → IsLater s n
    IsLater-trans s m n p q = record {
      same_owner = q.same_owner ∙ p.same_owner;
      newer = IsNewer-trans s m n p.newer q.newer;
      valid = λ v. q.valid (p.valid v);
    }

    merged :
        (s d m : RepoState) → IsOrdered d → Merge.update_state c params s d ≡ ok m → IsLater s m
    merged s d m o h =
        let (same, owner, v) = (update_state_outcome c params s d).0 m h in
        record {
          same_owner = owner;
          newer = rw same ((merge_state-IsNewer s d o).0);
          valid = λ w. v;
        }

    module _ (parameters : Bytes) where
      apply-IsLater :
          (what : String) (bytes : Bytes) (s m : RepoState)
          → apply b c parameters params what bytes s ≡ ok m
          → IsLater s m
      unfolding apply
      apply-IsLater what bytes s m h =
          let (d, e, u) = >>=-ok (decode_state b bytes) _ m h in
          merged s d m (decode_state-IsOrdered bytes d e) (map_err-ok _ _ m u)

      update_one-IsLater :
          (u : UpdateData) (s m : RepoState)
          → update_one b c parameters params u s ≡ ok m
          → IsLater s m
      unfolding update_one
      update_one-IsLater (full_state x) s m h = apply-IsLater _ x s m h
      update_one-IsLater (delta []) s m h = rw (sym (ok_injective s m _ refl h)) (IsLater-refl s)
      update_one-IsLater (delta (x ∷ xs)) s m h = apply-IsLater _ (x ∷ xs) s m h
      update_one-IsLater (state_and_delta x []) s m h = apply-IsLater _ x s m h
      update_one-IsLater (state_and_delta x (y ∷ ys)) s m h =
          let (n, p, q) = >>=-ok (apply b c parameters params _ x s) _ m h in
          IsLater-trans s n m (apply-IsLater _ x s n p) (apply-IsLater _ (y ∷ ys) n m q)
      update_one-IsLater u s m h = absurd (ground arith)

      update_loop-IsLater :
          (us : List UpdateData) (s m : RepoState)
          → update_loop b c parameters params us s ≡ ok m
          → IsLater s m
      unfolding update_loop
      update_loop-IsLater [] s m h = rw (sym (ok_injective s m _ refl h)) (IsLater-refl s)
      update_loop-IsLater (u ∷ us) s m h =
          let (n, p, q) = >>=-ok (update_one b c parameters params u s) _ m h in
          IsLater-trans s n m (update_one-IsLater u s n p) (update_loop-IsLater us n m q)

  -- Given that the codec round-trips and reads maps in key order: if `update_state` returns
  -- bytes, then they encode a later state than the one decoded, whatever the updates are: of
  -- the same owner, with no ref, bundle, field or extension lost or set back, and valid if the
  -- state decoded was.
  pub update_state-IsLater :
      (c : Crypto) (parameters state : Bytes) (params : RepoParams) (s : RepoState)
      (us : List UpdateData) (out : Bytes)
      → decode_params b parameters ≡ ok params
      → decode_state b state ≡ ok s
      → update_state b c parameters state us ≡ ok out
      → (m : RepoState) × (b.deserialize_state out ≡ ok m) × IsLater c params s m
  unfolding update_state
  update_state-IsLater c parameters state params s us out hp hs h =
      let h = rw (hp, hs) at h in
      let (m, p, q) = >>=-ok (update_loop b c parameters params us s) _ out h in
      (m, rt.state m out (map_err-ok _ _ out q), update_loop-IsLater c params parameters us s m p)
