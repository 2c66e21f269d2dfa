-- ===== src/WsClient/Probe.antt =====
-- The search for a repo's state at its current key and at the keys of the retired generations, and
-- its retries: crates/freenet-git/src/wsclient.rs.
pub mod Conclude
pub mod Newest
pub mod Sorted
use freenet_git.Prelude.{
  ℕ, zero, suc, ◌+◌, ◌-◌, ◌^◌, min, Bool, true, false, not, ◌&&◌, ◌||◌, Option, none, some, List,
  [], ◌∷◌, ◌++◌, Bytes, bytes, map, length, take, ltb, leb, ◌==◌, if◌then◌else◌, contains_text,
}
use freenet_git.Crypto.{Crypto}
use freenet_git.WsClient.Host.{
  Stdlib, WebApi, Answer, got, lost, Error, get_state, get_timeout_prefix, get_not_found_suffix,
}

-- A retired generation; its note is only printed.
pub record ContractLineageEntry : Type 0 where
  pub generation : ℕ
  pub code_hash : Bytes

unfoldable pub legacy_instance_id : Crypto → ContractLineageEntry → Bytes → Bytes
legacy_instance_id c entry params_bytes = c.blake3 (entry.code_hash ++ params_bytes)

pub data ProbeOutcome : Type 0 where
  empty : ProbeOutcome
  not_found : ProbeOutcome
  timeout : ProbeOutcome
  other_error : Error → ProbeOutcome

unfoldable pub from_get_state_err : Error → ProbeOutcome
from_get_state_err msg =
    if contains_text get_timeout_prefix msg
    then ProbeOutcome.timeout
    else if contains_text get_not_found_suffix msg
    then ProbeOutcome.not_found
    else ProbeOutcome.other_error msg

pub data RetryDisposition : Type 0 where
  transient : RetryDisposition
  hard_error : RetryDisposition
  authoritative : RetryDisposition

-- `to_ascii_lowercase`.
unfoldable pub to_ascii_lowercase : Bytes → Bytes
to_ascii_lowercase = map (λ b. if leb 65 b && leb b 90 then b + 32 else b)

unfoldable pub is_transient_host_error : Error → Bool
is_transient_host_error msg =
    let m = to_ascii_lowercase msg in
    contains_text (bytes "queue full") m
    || contains_text (bytes "try again later") m
    || contains_text (bytes "timed out") m
    || contains_text (bytes "timeout") m

unfoldable pub retry_disposition : ProbeOutcome → RetryDisposition
retry_disposition ProbeOutcome.timeout = transient
retry_disposition (ProbeOutcome.other_error msg) =
    if is_transient_host_error msg then transient else hard_error
retry_disposition ProbeOutcome.not_found = authoritative
retry_disposition ProbeOutcome.empty = authoritative

-- `matches!(.., RetryDisposition::Authoritative)`.
unfoldable pub is_authoritative : RetryDisposition → Bool
is_authoritative authoritative = true
is_authoritative _ = false

-- The key that an outcome is about: its text is made for the message alone.
pub data Label : Type 0 where
  current_key : Bytes → Label
  legacy_key : ℕ → Bytes → Label

abbrev pub Outcomes : Type 0
Outcomes = List (Label × ProbeOutcome)

-- The loop of `outcomes_worth_retrying`.
unfoldable pub worth_retrying_from : Bool → Outcomes → Bool
worth_retrying_from any_transient [] = any_transient
worth_retrying_from any_transient ((l, o) ∷ os) = elim (retry_disposition o) [
  | hard_error ↦ false
  | transient ↦ worth_retrying_from true os
  | authoritative ↦ worth_retrying_from any_transient os
]

unfoldable pub outcomes_worth_retrying : Outcomes → Bool
outcomes_worth_retrying = worth_retrying_from false

-- `MAX_BACKOFF_SECS`, and `u64::MAX` for `saturating_pow`; the result is in seconds.
abbrev pub max_backoff_secs : ℕ
max_backoff_secs = 60

unfoldable pub retry_backoff : ℕ → ℕ
retry_backoff attempt = min (min (2 ^ attempt) (2 ^ 64 - 1)) max_backoff_secs

pub data GetSource : Type 0 where
  current : GetSource
  legacy : ℕ → Bytes → GetSource

pub record LegacyAwareGet : Type 0 where
  pub state : Bytes
  pub source : GetSource

-- A candidate: its index in the lineage, its id, and its generation as the sort reads it.
pub record Candidate : Type 0 where
  pub index : ℕ
  pub id : Bytes
  pub generation : ℕ

unfoldable pub candidates_from : Crypto → Bytes → ℕ → List ContractLineageEntry → List Candidate
candidates_from c params_bytes idx [] = []
candidates_from c params_bytes idx (e ∷ es) =
    (record { index = idx; id = legacy_instance_id c e params_bytes; generation = e.generation })
    ∷ candidates_from c params_bytes (idx + 1) es

-- `sort_by_key` by the generation reversed: stable, so equal ones keep their order.
unfoldable pub insert_candidate : Candidate → List Candidate → List Candidate
insert_candidate x [] = x ∷ []
insert_candidate x (y ∷ ys) =
    let rest = insert_candidate x ys in
    if ltb x.generation y.generation then y ∷ rest else x ∷ y ∷ ys

unfoldable pub newest_first : List Candidate → List Candidate
newest_first [] = []
newest_first (x ∷ xs) = insert_candidate x (newest_first xs)

-- What one GET says of a key: a state that is there, or an outcome.
pub data Finding : Type 0 where
  present : Bytes → Finding
  missing : ProbeOutcome → Finding

unfoldable pub inspect : Answer Bytes → Finding
inspect (got []) = missing ProbeOutcome.empty
inspect (got (b ∷ bs)) = present (b ∷ bs)
inspect (lost e) = missing (from_get_state_err e)

-- What a pass ends with.
pub data Pass : Type 0 where
  found : LegacyAwareGet → Pass
  failed : Outcomes → Pass

-- After the GET of one key: a state ends the pass, as does an outcome that is not authoritative;
-- an authoritative one goes on to the next key.
unfoldable pub conclude :
    Label → GetSource → Outcomes → Finding → WebApi → (Outcomes → Pass × WebApi) → Pass × WebApi
conclude label source outcomes (present state) w next =
    (found (record { state = state; source = source }), w)
conclude label source outcomes (missing o) w next =
    let outcomes' = outcomes ++ (label, o) ∷ [] in
    if is_authoritative (retry_disposition o) then next outcomes' else (failed outcomes', w)

-- The walk over the candidates, with the outcomes so far.
unfoldable pub walk : Stdlib → Bytes → List Candidate → Outcomes → WebApi → Pass × WebApi
walk lib wait [] outcomes w = (failed outcomes, w)
walk lib wait (x ∷ xs) outcomes w =
    let (r, w') = get_state lib x.id false wait w in
    conclude (legacy_key x.index x.id) (legacy x.index x.id) outcomes (inspect r) w'
      (λ outcomes'. walk lib wait xs outcomes' w')

-- One pass over all the keys.
unfoldable pub probe_all_keys :
    Crypto → Stdlib → Bytes → Bytes → List ContractLineageEntry → Bytes → WebApi → Pass × WebApi
probe_all_keys c lib current_id params_bytes lineage wait w =
    let (r, w') = get_state lib current_id false wait w in
    let candidates = newest_first (candidates_from c params_bytes 0 lineage) in
    conclude (current_key current_id) current [] (inspect r) w'
      (λ outcomes. walk lib wait candidates outcomes w')
