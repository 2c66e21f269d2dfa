-- ===== src/WsClient/Failure/Shape.antt =====
-- What the error of a pass can say, crates/freenet-git/src/wsclient.rs.
use freenet_git.Prelude.{
  ℕ, suc, ◌+◌, ◌≤◌, ◌<◌, ◌≡◌, ◌≢◌, refl, ap, inl, inr, Bool, false, none, List, [], ◌∷◌, ◌++◌,
  Bytes, length, length-append, All, arith,
}
use freenet_git.Crypto.{Crypto}
use freenet_git.WsClient.Host.{Stdlib, WebApi, get_state}
use freenet_git.WsClient.Probe.{
  ContractLineageEntry, ProbeOutcome, retry_disposition, is_authoritative, Label, current_key,
  legacy_key, Outcomes, current, legacy, Candidate, candidates_from, insert_candidate, newest_first,
  failed, inspect, walk, probe_all_keys,
}
use freenet_git.WsClient.Probe.Conclude.{IsAuthoritative, conclude-failed}
use freenet_git.WsClient.Failure.{
  Failure, all_timed_out, nothing_found, all_failed, mixed, is_timeout, is_not_found,
  is_empty_response, count, first_error, describe, format_fallback_failure,
}

abbrev AllAbsent : Outcomes → Type 0
AllAbsent = All (λ p. IsAuthoritative p.1)

-- The outcomes of a failed pass over `n` keys: all absent, or absent up to one that is unknown.
data Ended (n : ℕ) : Outcomes → Type 0 where
  all_absent : (os : Outcomes) → AllAbsent os → length os ≡ n → Ended n os
  stopped :
      (pre : Outcomes) (l : Label) (o : ProbeOutcome)
      → AllAbsent pre
      → is_authoritative (retry_disposition o) ≡ false
      → length pre < n
      → Ended n (pre ++ (l, o) ∷ [])

AllAbsent-append :
    (os : Outcomes) (l : Label) (o : ProbeOutcome)
    → AllAbsent os
    → IsAuthoritative o
    → AllAbsent (os ++ (l, o) ∷ [])
AllAbsent-append [] l o h a = (a, tt)
AllAbsent-append (p ∷ os) l o h a = (h.0, AllAbsent-append os l o h.1 a)

walk-Ended :
    (lib : Stdlib) (wait : Bytes) (xs : List Candidate) (outcomes : Outcomes) (w w' : WebApi)
    (out : Outcomes)
    → AllAbsent outcomes
    → walk lib wait xs outcomes w ≡ (failed out, w')
    → Ended (length outcomes + length xs) out
unfolding walk
walk-Ended lib wait [] outcomes w w' out a h =
    let e : outcomes ≡ out = ground arith in rw (← e) (all_absent outcomes a (omega arith))
walk-Ended lib wait (x ∷ xs) outcomes w w' out a h =
    let (r, v) = get_state lib x.id false wait w in
    let label = legacy_key x.index x.id in
    let (o, p, end) =
      conclude-failed label (legacy x.index x.id) outcomes v (λ os. walk lib wait xs os v) w'
        (inspect r) out h in
    elim end [
      | inl (go, rest) ↦
          let os = outcomes ++ (label, o) ∷ [] in
          let n : length os + length xs ≡ length outcomes + suc (length xs) =
            omega (arith, length-append outcomes ((label, o) ∷ [])) in
          rw (← n)
            (walk-Ended lib wait xs os v w' out (AllAbsent-append outcomes label o a go) rest)
      | inr (stop, e) ↦ rw e (stopped outcomes label o a stop (omega arith))
    ]

length-insert_candidate :
    (x : Candidate) (ys : List Candidate) → length (insert_candidate x ys) ≡ suc (length ys)
unfolding insert_candidate
length-insert_candidate x [] = refl
length-insert_candidate x (y ∷ ys) = ground (arith, length-insert_candidate x ys)

length-newest_first : (xs : List Candidate) → length (newest_first xs) ≡ length xs
unfolding newest_first
length-newest_first [] = refl
length-newest_first (x ∷ xs) =
    omega (arith, length-insert_candidate x (newest_first xs), length-newest_first xs)

length-candidates_from :
    (c : Crypto) (params_bytes : Bytes) (n : ℕ) (lineage : List ContractLineageEntry)
    → length (candidates_from c params_bytes n lineage) ≡ length lineage
unfolding candidates_from
length-candidates_from c params_bytes n [] = refl
length-candidates_from c params_bytes n (e ∷ es) =
    ap suc (length-candidates_from c params_bytes (n + 1) es)

probe_all_keys-Ended :
    (c : Crypto) (lib : Stdlib) (current_id params_bytes : Bytes)
    (lineage : List ContractLineageEntry) (wait : Bytes) (w w' : WebApi) (out : Outcomes)
    → probe_all_keys c lib current_id params_bytes lineage wait w ≡ (failed out, w')
    → Ended (suc (length lineage)) out
unfolding probe_all_keys
probe_all_keys-Ended c lib current_id params_bytes lineage wait w w' out h =
    let (r, v) = get_state lib current_id false wait w in
    let label = current_key current_id in
    let cs = candidates_from c params_bytes 0 lineage in
    let (o, p, end) =
      conclude-failed label current [] v (λ os. walk lib wait (newest_first cs) os v) w' (inspect r)
        out h in
    elim end [
      | inl (go, rest) ↦
          let n : 1 + length (newest_first cs) ≡ suc (length lineage) =
            omega
              (arith, length-newest_first cs, length-candidates_from c params_bytes 0 lineage) in
          rw (← n) (walk-Ended lib wait (newest_first cs) ((label, o) ∷ []) v w' out (go, tt) rest)
      | inr (stop, e) ↦ rw e (stopped [] label o tt stop (omega arith))
    ]

-- Counting the outcomes.
count-append :
    (p : ProbeOutcome → Bool) (os qs : Outcomes) → count p (os ++ qs) ≡ count p os + count p qs
unfolding count
count-append p [] qs = omega arith
count-append p ((l, o) ∷ os) qs = ground (arith, count-append p os qs)

AllAbsent-count :
    (os : Outcomes)
    → AllAbsent os
    → (count is_timeout os ≡ 0) × (count is_not_found os + count is_empty_response os ≡ length os)
unfolding count is_timeout is_not_found is_empty_response retry_disposition is_authoritative
AllAbsent-count [] h = (refl, refl)
AllAbsent-count ((l, ProbeOutcome.empty) ∷ os) h = omega (arith, AllAbsent-count os h.1)
AllAbsent-count ((l, ProbeOutcome.not_found) ∷ os) h = omega (arith, AllAbsent-count os h.1)
AllAbsent-count ((l, ProbeOutcome.timeout) ∷ os) h = absurd (ground arith)
AllAbsent-count ((l, ProbeOutcome.other_error msg) ∷ os) h = absurd (ground arith)

-- What the error says of a pass over the current key and `n` retired generations.
abbrev pub Tells : ℕ → Failure → Type 0
Tells n (all_timed_out total) = total ≡ 1
Tells n (nothing_found keys not_founds empties) = (keys ≡ n) × (not_founds + empties ≡ suc n)
Tells n (all_failed total first) = (total ≡ 1) × (first ≢ none)
Tells n (mixed timeouts not_founds empties other_errors detail more) =
    (timeouts + other_errors ≡ 1) × (0 < not_founds + empties) × (not_founds + empties ≤ n)

-- From the numbers alone.
describe_absent :
    (n total a b : ℕ) (os : Outcomes)
    → total ≡ suc n
    → a + b ≡ total
    → Tells n (describe total 0 a b os)
unfolding describe
describe_absent n total a b os e h = ground arith

describe_timeout :
    (n k a b : ℕ) (os : Outcomes) → k < suc n → a + b ≡ k → Tells n (describe (suc k) 1 a b os)
unfolding describe
describe_timeout n k a b os h e = ground arith

describe_other :
    (n k a b : ℕ) (os : Outcomes)
    → k < suc n
    → a + b ≡ k
    → first_error os ≢ none
    → Tells n (describe (suc k) 0 a b os)
unfolding describe
describe_other n k a b os h e f = ground arith

AllAbsent-Tells :
    (n : ℕ) (os : Outcomes)
    → AllAbsent os
    → length os ≡ suc n
    → Tells n (format_fallback_failure os)
unfolding format_fallback_failure
AllAbsent-Tells n os a e =
    let (t, rest) = AllAbsent-count os a in
    rw t
      (describe_absent n (length os) (count is_not_found os) (count is_empty_response os) os e rest)

first_error-append :
    (pre : Outcomes) (l : Label) (msg : Bytes)
    → first_error (pre ++ (l, ProbeOutcome.other_error msg) ∷ []) ≢ none
unfolding first_error
first_error-append [] l msg = λ e. ground arith
first_error-append ((k, ProbeOutcome.empty) ∷ pre) l msg = first_error-append pre l msg
first_error-append ((k, ProbeOutcome.not_found) ∷ pre) l msg = first_error-append pre l msg
first_error-append ((k, ProbeOutcome.timeout) ∷ pre) l msg = first_error-append pre l msg
first_error-append ((k, ProbeOutcome.other_error m) ∷ pre) l msg = λ e. ground arith

-- The counts of the outcomes that are absent, and of one more.
last_counts :
    (pre : Outcomes) (l : Label) (o : ProbeOutcome) (t : ℕ)
    → AllAbsent pre
    → count is_timeout ((l, o) ∷ []) ≡ t
    → count is_not_found ((l, o) ∷ []) ≡ 0
    → count is_empty_response ((l, o) ∷ []) ≡ 0
    → (length (pre ++ (l, o) ∷ []) ≡ suc (length pre))
      × (count is_timeout (pre ++ (l, o) ∷ []) ≡ t)
      × (count is_not_found (pre ++ (l, o) ∷ []) + count is_empty_response (pre ++ (l, o) ∷ [])
          ≡ length pre)
last_counts pre l o t a p q r =
    let last : Outcomes = (l, o) ∷ [] in
    let (zero_timeouts, rest) = AllAbsent-count pre a in
    (
      omega (arith, length-append pre last),
      omega (arith, count-append is_timeout pre last),
      omega (arith, count-append is_not_found pre last, count-append is_empty_response pre last),
    )

stopped-Tells :
    (n : ℕ) (pre : Outcomes) (l : Label) (o : ProbeOutcome)
    → AllAbsent pre
    → is_authoritative (retry_disposition o) ≡ false
    → length pre < suc n
    → Tells n (format_fallback_failure (pre ++ (l, o) ∷ []))
unfolding format_fallback_failure count is_timeout is_not_found is_empty_response retry_disposition
    is_authoritative
stopped-Tells n pre l ProbeOutcome.empty a s h = absurd (ground arith)
stopped-Tells n pre l ProbeOutcome.not_found a s h = absurd (ground arith)
stopped-Tells n pre l ProbeOutcome.timeout a s h =
    let os = pre ++ (l, ProbeOutcome.timeout) ∷ [] in
    let (e, t, rest) = last_counts pre l ProbeOutcome.timeout 1 a refl refl refl in
    rw (e, t)
      (describe_timeout n (length pre) (count is_not_found os) (count is_empty_response os) os h
        rest)
stopped-Tells n pre l (ProbeOutcome.other_error msg) a s h =
    let os = pre ++ (l, ProbeOutcome.other_error msg) ∷ [] in
    let (e, t, rest) = last_counts pre l (ProbeOutcome.other_error msg) 0 a refl refl refl in
    rw (e, t)
      (describe_other n (length pre) (count is_not_found os) (count is_empty_response os) os h rest
        (first_error-append pre l msg))

Ended-Tells : (n : ℕ) (os : Outcomes) → Ended (suc n) os → Tells n (format_fallback_failure os)
Ended-Tells n _ (all_absent os a e) = AllAbsent-Tells n os a e
Ended-Tells n _ (stopped pre l o a s h) = stopped-Tells n pre l o a s h

-- If a pass over the current key and the retired generations fails, then its error says "timed out
-- on all" or "every probe failed" only of a single probe, "no state found" only where the current
-- key and every retired generation were probed and said to be absent, with counts that add up, and
-- otherwise that all probes but one were absent.
pub format_fallback_failure-probe_all_keys :
    (c : Crypto) (lib : Stdlib) (current_id params_bytes : Bytes)
    (lineage : List ContractLineageEntry) (wait : Bytes) (w w' : WebApi) (out : Outcomes)
    → probe_all_keys c lib current_id params_bytes lineage wait w ≡ (failed out, w')
    → Tells (length lineage) (format_fallback_failure out)
format_fallback_failure-probe_all_keys c lib current_id params_bytes lineage wait w w' out h =
    Ended-Tells (length lineage) out
      (probe_all_keys-Ended c lib current_id params_bytes lineage wait w w' out h)
