-- ===== src/WsClient/Probe/Conclude.antt =====
-- The step of a probe from one key to the next, and the probes that miss,
-- crates/freenet-git/src/wsclient.rs.
use freenet_git.Prelude.{
  ◌≡◌, ◌≢◌, refl, ◌⊎◌, inl, inr, true, false, List, [], ◌∷◌, ◌++◌, Bytes, bytes, arith, Bool-cases,
  contains_text, starts_with,
}
use freenet_git.WsClient.Host.{Stdlib, WebApi, Answer, got, lost, Error, get_state, get_timed_out}
use freenet_git.WsClient.Probe.{
  ProbeOutcome, from_get_state_err, retry_disposition, is_authoritative, Label, Outcomes, GetSource,
  LegacyAwareGet, Finding, present, missing, inspect, Pass, found, failed, conclude,
}

-- A GET's answer that says there is no state: none at all, or an error whose text holds the words of
-- the host's absence and not those of the deadline.
pub data Absent (wait : Bytes) : Answer Bytes → Type 0 where
  no_bytes : Absent wait (got [])
  not_on_network :
      (e : Error)
      → contains_text (bytes "not found on the network") e ≡ true
      → contains_text (bytes "timed out waiting for GET response") e ≡ false
      → e ≢ get_timed_out wait
      → Absent wait (lost e)

-- GETs of these ids, one after the other, each of which said that there is no state.
pub data Misses (lib : Stdlib) (wait : Bytes) : WebApi → List Bytes → WebApi → Type 0 where
  none : (w : WebApi) → Misses lib wait w [] w
  miss :
      (w w' : WebApi) (id : Bytes) (ids : List Bytes)
      → Absent wait (get_state lib id false wait w).0
      → Misses lib wait (get_state lib id false wait w).1 ids w'
      → Misses lib wait w (id ∷ ids) w'

-- An outcome that lets the search go on.
abbrev pub IsAuthoritative : ProbeOutcome → Type 0
IsAuthoritative o = is_authoritative (retry_disposition o) ≡ true

pub inspect-present :
    (r : Answer Bytes) (state : Bytes) → inspect r ≡ present state → (r ≡ got state) × (state ≢ [])
unfolding inspect
inspect-present (got []) state h = absurd (ground arith)
inspect-present (got (b ∷ bs)) state h = (ground arith, λ e. ground arith)
inspect-present (lost e) state h = absurd (ground arith)

from_get_state_err-not_found :
    (e : Error)
    → IsAuthoritative (from_get_state_err e)
    → (contains_text (bytes "not found on the network") e ≡ true)
      × (contains_text (bytes "timed out waiting for GET response") e ≡ false)
unfolding from_get_state_err retry_disposition is_authoritative
from_get_state_err-not_found e a = ground arith

contains_text-get_timed_out :
    (wait : Bytes)
    → contains_text (bytes "timed out waiting for GET response") (get_timed_out wait) ≡ true
unfolding contains_text starts_with get_timed_out
contains_text-get_timed_out wait = refl

pub inspect-missing :
    (wait : Bytes) (r : Answer Bytes) (o : ProbeOutcome)
    → inspect r ≡ missing o
    → IsAuthoritative o
    → Absent wait r
unfolding inspect
inspect-missing wait (got []) o h a = no_bytes
inspect-missing wait (got (b ∷ bs)) o h a = absurd (ground arith)
inspect-missing wait (lost e) o h a =
    let same : from_get_state_err e ≡ o = ground arith in
    let (absent, no_timeout) = from_get_state_err-not_found e (rw same a) in
    not_on_network e absent no_timeout
      (λ late. ground (arith, contains_text-get_timed_out wait, rw late at no_timeout))

module _ (label : Label) (source : GetSource) (outcomes : Outcomes) (w : WebApi)
    (next : Outcomes → Pass × WebApi) (w' : WebApi) where
  pub conclude-found :
      (f : Finding) (g : LegacyAwareGet)
      → conclude label source outcomes f w next ≡ (found g, w')
      → ((f ≡ present g.state) × (g.source ≡ source) × (w ≡ w'))
        ⊎ ((o : ProbeOutcome) × (f ≡ missing o)
            × IsAuthoritative o
            × (next (outcomes ++ (label, o) ∷ []) ≡ (found g, w')))
  unfolding conclude
  conclude-found (present state) g h = inl (ground arith)
  conclude-found (missing o) g h = elim (Bool-cases (is_authoritative (retry_disposition o))) [
    | inl go ↦ inr (o, refl, go, ground arith)
    | inr stop ↦ absurd (ground arith)
  ]

  pub conclude-failed :
      (f : Finding) (out : Outcomes)
      → conclude label source outcomes f w next ≡ (failed out, w')
      → (o : ProbeOutcome) × (f ≡ missing o)
        × ((IsAuthoritative o × (next (outcomes ++ (label, o) ∷ []) ≡ (failed out, w')))
            ⊎ ((is_authoritative (retry_disposition o) ≡ false)
                × (out ≡ outcomes ++ (label, o) ∷ [])))
  unfolding conclude
  conclude-failed (present state) out h = absurd (ground arith)
  conclude-failed (missing o) out h = elim (Bool-cases (is_authoritative (retry_disposition o))) [
    | inl go ↦ (o, refl, inl (go, ground arith))
    | inr stop ↦ (o, refl, inr (stop, ground arith))
  ]
