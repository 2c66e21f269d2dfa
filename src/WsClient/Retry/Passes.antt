-- ===== src/WsClient/Retry/Passes.antt =====
-- The retry loop ends, and what its passes and sleeps are, crates/freenet-git/src/wsclient.rs.
use freenet_git.Prelude.{
  ℕ, zero, suc, ◌+◌, ◌*◌, ◌^◌, ◌≤◌, ◌<◌, ◌≡◌, refl, ap, ◌⊎◌, ◌↔◌, inl, inr, Bool, true, false, some,
  List, [], ◌∷◌, ◌++◌, Option, Bytes, length, All, arith, Bool-cases, leb,
}
use mathlib.Core.List.{append-nil, append_assoc}
use native.Mathlib.Nat.{pow-le-pow_right, pow-suc}
use freenet_git.Crypto.{Crypto}
use freenet_git.Chunked.{sum}
use freenet_git.WsClient.Host.{Stdlib, WebApi}
use freenet_git.WsClient.Probe.{
  ContractLineageEntry, RetryDisposition, transient, hard_error, authoritative, retry_disposition,
  Outcomes, worth_retrying_from, outcomes_worth_retrying, retry_backoff, LegacyAwareGet, Pass,
  found, failed, probe_all_keys,
}
use freenet_git.WsClient.Failure.{Failure, format_fallback_failure}
use freenet_git.WsClient.Retry.{Retried, after_pass, probe_loop, get_state_with_legacy_fallback}

-- Some outcome may clear up, and none is beyond a retry.
abbrev pub SomeTransient : Outcomes → Type 0
SomeTransient [] = ⊥
SomeTransient ((l, o) ∷ os) = (retry_disposition o ≡ transient) ⊎ SomeTransient os

abbrev pub NoHardError : Outcomes → Type 0
NoHardError = All (λ p. retry_disposition p.1 ≡ hard_error → ⊥)

worth_retrying_from_lem :
    (b : Bool) (os : Outcomes)
    → (worth_retrying_from b os ≡ true) ↔ (((b ≡ true) ⊎ SomeTransient os) × NoHardError os)
unfolding worth_retrying_from
worth_retrying_from_lem b [] =
    (λ h. (inl h, tt), λ h. elim (h.0) [ inl e ↦ e | inr t ↦ elim t [ ] ])
worth_retrying_from_lem b ((l, o) ∷ os) =
    go (retry_disposition o) (worth_retrying_from_lem true os) (worth_retrying_from_lem b os)
  where
    Worth : Bool → Type 0
    Worth b = (worth_retrying_from b os ≡ true) ↔ (((b ≡ true) ⊎ SomeTransient os) × NoHardError os)

    go :
        (d : RetryDisposition)
        → Worth true
        → Worth b
        → ((elim d [
          | hard_error ↦ false
          | transient ↦ worth_retrying_from true os
          | authoritative ↦ worth_retrying_from b os
        ])
            ≡ true)
          ↔ (((b ≡ true) ⊎ ((d ≡ transient) ⊎ SomeTransient os))
              × ((d ≡ hard_error → ⊥) × NoHardError os))
    go transient t u =
        (λ h. (inr (inl refl), ((λ e. ground arith), (t.0 h).1)), λ h. t.1 (inl refl, h.1.1))
    go hard_error t u = (λ h. absurd (ground arith), λ h. absurd (h.1.0 refl))
    go authoritative t u = (
      λ h. (
        elim ((u.0 h).0) [ inl e ↦ inl e | inr s ↦ inr (inr s) ],
        ((λ e. ground arith), (u.0 h).1),
      ),
      λ h. u.1 (
        elim (h.0) [
          | inl e ↦ inl e
          | inr s ↦ elim s [ inl e ↦ absurd (ground arith) | inr r ↦ inr r ]
        ],
        h.1.1,
      ),
    )

-- The outcomes are worth a retry exactly if some of them may clear up and none is a hard error;
-- an authoritative absence counts for neither.
pub outcomes_worth_retrying_iff :
    (os : Outcomes) → (outcomes_worth_retrying os ≡ true) ↔ (SomeTransient os × NoHardError os)
unfolding outcomes_worth_retrying
outcomes_worth_retrying_iff os =
    let (to, from) = worth_retrying_from_lem false os in
    (
      λ h.
          let (some_one, no_hard) = to h in
          (elim some_one [ inl e ↦ absurd (ground arith) | inr t ↦ t ], no_hard),
      λ h. from (inr h.0, h.1),
    )

retry_backoff_small : (attempt : ℕ) → attempt ≤ 5 → retry_backoff attempt ≡ 2 ^ attempt
unfolding retry_backoff
retry_backoff_small attempt h =
    omega (arith, pow-le-pow_right {n = 2} (omega arith) {i = attempt} {j = 5} h)

-- The backoff never exceeds a minute and never falls from one attempt to the next; it is
-- `2 ^ attempt` seconds up to the fifth attempt and a minute from the sixth on, so that saturating
-- at a `u64` changes nothing.
pub retry_backoff_bounds :
    (attempt : ℕ)
    → (retry_backoff attempt ≤ 60)
      × (retry_backoff attempt ≤ retry_backoff (attempt + 1))
      × (((attempt ≤ 5) × (retry_backoff attempt ≡ 2 ^ attempt))
          ⊎ ((5 < attempt) × (retry_backoff attempt ≡ 60)))
unfolding retry_backoff
retry_backoff_bounds attempt = (
  omega arith,
  omega
      (arith, pow-le-pow_right {n = 2} (omega arith) {i = attempt} {j = attempt + 1} (omega arith)),
  elim (le_or_lt attempt) [
    | inl h ↦ inl (h, retry_backoff_small attempt h)
    | inr h ↦ inr (h, omega (arith, pow-le-pow_right {n = 2} (omega arith) {i = 6} {j = attempt} h))
  ],
)
  where
    le_or_lt : (n : ℕ) → (n ≤ 5) ⊎ (5 < n)
    le_or_lt n = elim (Bool-cases (leb n 5)) [
      | inl e ↦ inl (ground arith)
      | inr e ↦ inr (ground arith)
    ]

at_most_16 : (n : ℕ) → n ≤ 4 → 2 ^ n ≤ 16
at_most_16 n h = pow-le-pow_right {n = 2} (omega arith) {i = n} {j = 4} h

double : (n : ℕ) → 2 ^ (n + 1) ≡ 2 * 2 ^ n
double n = let e : n + 1 ≡ suc n = omega arith in omega (arith, pow-suc 2 n, ap (λ k. 2 ^ k) e)

module _ (c : Crypto) (lib : Stdlib) (current_id params_bytes : Bytes)
    (lineage : List ContractLineageEntry) (wait : Bytes) where
  -- The passes from the `attempt`-th on: what they return, the sleeps between them, and the
  -- connection that they leave.
  pub data Passes : ℕ → WebApi → List ℕ → LegacyAwareGet ⊎ Failure → WebApi → Type 0 where
    adopted :
        (attempt : ℕ) (w w' : WebApi) (g : LegacyAwareGet)
        → probe_all_keys c lib current_id params_bytes lineage wait w ≡ (found g, w')
        → Passes attempt w [] (inl g) w'
    given_up :
        (attempt : ℕ) (w w' : WebApi) (os : Outcomes)
        → probe_all_keys c lib current_id params_bytes lineage wait w ≡ (failed os, w')
        → (attempt ≡ 4) ⊎ (SomeTransient os × NoHardError os → ⊥)
        → Passes attempt w [] (inr (format_fallback_failure os)) w'
    again :
        (attempt : ℕ) (w v w' : WebApi) (os : Outcomes) (slept : List ℕ)
        (result : LegacyAwareGet ⊎ Failure)
        → probe_all_keys c lib current_id params_bytes lineage wait w ≡ (failed os, v)
        → attempt < 4
        → SomeTransient os
        → NoHardError os
        → Passes (attempt + 1) v slept result w'
        → Passes attempt w (retry_backoff attempt ∷ slept) result w'

  -- What a loop or its rest gives: passes and what they return, behind the sleeps so far.
  abbrev Ran : ℕ → WebApi → List ℕ → Option Retried → Type 0
  Ran attempt w slept out =
      (more : List ℕ) × (result : LegacyAwareGet ⊎ Failure) × (w' : WebApi) × Passes attempt w more
        result w'
      × (out ≡ some (record { result = result; web_api = w'; slept = slept ++ more }))

  after_pass-Ran :
      (attempt : ℕ) (slept : List ℕ) (w v : WebApi) (r : Pass) (next : List ℕ → Option Retried)
      → probe_all_keys c lib current_id params_bytes lineage wait w ≡ (r, v)
      → attempt ≤ 4
      → (attempt < 4 → (s : List ℕ) → Ran (attempt + 1) v s (next s))
      → Ran attempt w slept (after_pass attempt slept r v next)
  unfolding after_pass
  after_pass-Ran attempt slept w v (found g) next e h go =
      ([], inl g, v, adopted attempt w v g e, rw append-nil)
  after_pass-Ran attempt slept w v (failed os) next e h go =
      let (to, from) = outcomes_worth_retrying_iff os in
      elim (Bool-cases (leb 4 attempt)) [
        | inl last ↦ (
          [],
          inr (format_fallback_failure os),
          v,
          given_up attempt w v os e (inl (ground arith)),
          rw (last, append-nil),
        )
        | inr early ↦ elim (Bool-cases (outcomes_worth_retrying os)) [
          | inr futile ↦ (
            [],
            inr (format_fallback_failure os),
            v,
            given_up attempt w v os e (inr (λ worth. ground (arith, from worth))),
            rw (early, futile, append-nil),
          )
          | inl worth ↦
              let (transient_one, no_hard) = to worth in
              let lt : attempt < 4 = ground arith in
              let (more, result, w', passes, out) = go lt (slept ++ retry_backoff attempt ∷ []) in
              (
                retry_backoff attempt ∷ more,
                result,
                w',
                again attempt w v w' os more result e lt transient_one no_hard passes,
                rw (early, worth, out, append_assoc),
              )
        ]
      ]

  loop-Ran :
      (fuel attempt : ℕ) (slept : List ℕ) (w : WebApi)
      → fuel + attempt ≡ 5
      → 0 < fuel
      → Ran attempt w slept
          (probe_loop c lib current_id params_bytes lineage wait fuel attempt slept w)
  unfolding probe_loop
  loop-Ran zero attempt slept w e h = absurd (omega arith)
  loop-Ran (suc fuel) attempt slept w e h =
      let (r, v) = probe_all_keys c lib current_id params_bytes lineage wait w in
      after_pass-Ran attempt slept w v r
        (λ s. probe_loop c lib current_id params_bytes lineage wait fuel (attempt + 1) s v) refl
        (omega arith) (λ lt s. loop-Ran fuel (attempt + 1) s v (omega arith) (omega arith))

  -- Passes from the first on are few, and so are the seconds slept.
  Passes-sum :
      (attempt : ℕ) (w : WebApi) (slept : List ℕ) (result : LegacyAwareGet ⊎ Failure) (w' : WebApi)
      → Passes attempt w slept result w'
      → 1 ≤ attempt
      → attempt ≤ 4
      → (sum slept + 2 ^ attempt ≤ 16) × (length slept + attempt ≤ 4)
  Passes-sum attempt w _ _ w' (adopted _ _ _ g e) lo hi = omega (arith, at_most_16 attempt hi)
  Passes-sum attempt w _ _ w' (given_up _ _ _ os e f) lo hi = omega (arith, at_most_16 attempt hi)
  Passes-sum attempt w _ _ w' (again _ _ v _ os slept result e lt t n rest) lo hi =
      let (total, few) =
        Passes-sum (attempt + 1) v slept result w' rest (omega arith) (omega arith) in
      let here = retry_backoff_small attempt (omega arith) in
      omega (arith, total, few, here, double attempt)

-- The search for a repo's state always ends: within four passes, fewer than four sleeps and at most
-- 14 seconds slept in all. Each pass but the last failed with outcomes worth a retry and was
-- followed by that attempt's backoff; the last found the state that is returned, or failed, as the
-- fourth or with outcomes not worth a retry, and its outcomes make the error.
pub get_state_with_legacy_fallback-Passes :
    (c : Crypto) (lib : Stdlib) (current_id params_bytes : Bytes)
    (lineage : List ContractLineageEntry) (wait : Bytes) (w : WebApi)
    → (slept : List ℕ) × (result : LegacyAwareGet ⊎ Failure) × (w' : WebApi)
      × (get_state_with_legacy_fallback c lib current_id params_bytes lineage wait w
          ≡ some (record { result = result; web_api = w'; slept = slept }))
      × Passes c lib current_id params_bytes lineage wait 1 w slept result w'
      × (length slept < 4)
      × (sum slept ≤ 14)
unfolding get_state_with_legacy_fallback
get_state_with_legacy_fallback-Passes c lib current_id params_bytes lineage wait w =
    let (slept, result, w', passes, out) =
      loop-Ran c lib current_id params_bytes lineage wait 4 1 [] w refl (omega arith) in
    let (total, few) =
      Passes-sum c lib current_id params_bytes lineage wait 1 w slept result w' passes (omega arith)
        (omega arith) in
    (slept, result, w', out, passes, omega arith, omega arith)
