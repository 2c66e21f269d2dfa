-- ===== src/Tests/ClientTests.antt =====
-- The theorems on the client of a node, at concrete values.
use freenet_git.Prelude.{
  ℕ, ◌≤◌, ◌<◌, ◌≡◌, ◌≢◌, refl, ◌⊎◌, false, none, some, List, [], ◌∷◌, ◌++◌, Bytes, bytes, length,
  arith, contains_text, starts_with,
}
use freenet_git.BTreeMap.Order.{cmp, eqb}
use freenet_git.Chunked.{sum}
use freenet_git.WsClient.Host.{
  ContractKey, Stdlib, HostResponse, put_response, get_response, update_notification, other, get,
  Recv, message, elapsed, WebApi, got, next_error, send, await, finish, request, put_answer,
  host_ok, dispatch_put_response, put_contract, get_answer, dispatch_get_response, get_state,
  get_not_found, get_timed_out,
}
use freenet_git.WsClient.Host.Confirm.{
  ConfirmsPut, put_contract-ConfirmsPut, stored, get_state-GetEnds,
}
use freenet_git.WsClient.Probe.{
  ContractLineageEntry, legacy_instance_id, ProbeOutcome, from_get_state_err, retry_disposition,
  is_authoritative, current_key, legacy_key, Outcomes, retry_backoff, current, legacy,
  LegacyAwareGet, candidates_from, insert_candidate, newest_first, inspect, found, failed, conclude,
  walk, probe_all_keys,
}
use freenet_git.WsClient.Probe.Newest.{Adopted, probe_all_keys-Adopted}
use freenet_git.WsClient.Failure.{Failure, format_fallback_failure}
use freenet_git.WsClient.Failure.Shape.{Tells, format_fallback_failure-probe_all_keys}
use freenet_git.WsClient.Retry.{get_state_with_legacy_fallback, put_pack}
use freenet_git.WsClient.Retry.Upload.{Tries, to_cache, backoffs, put_pack-Tries}
use freenet_git.WsClient.Retry.Passes.{
  Passes, get_state_with_legacy_fallback-Passes, retry_backoff_bounds,
}
use freenet_git.Tests.{test_crypto}

-- A contract's id is its parameters and its code, one after the other.
abbrev test_stdlib : Stdlib
test_stdlib = record {
  from_params_and_code = λ p w. record { id = p ++ w; code_hash = w };
  from_code = λ w. w;
  show_id = λ i. i;
}

abbrev key : Bytes → ContractKey
key i = record { id = i; code_hash = [] }

-- The older generation stands first.
abbrev lineage : List ContractLineageEntry
lineage =
    record { generation = 1; code_hash = bytes "old" }
    ∷ record { generation = 2; code_hash = bytes "new" }
    ∷ []

abbrev old_id : Bytes
old_id = test_crypto.blake3 (bytes "oldp")

abbrev new_id : Bytes
new_id = test_crypto.blake3 (bytes "newp")

abbrev arriving : List Recv → WebApi
arriving rs = record { sent = []; sends = []; recvs = rs }

-- Only the oldest generation has a state; a message about another contract comes in between.
abbrev old_state : WebApi
old_state = arriving (
    message (HostResponse.not_found (bytes "cur"))
    ∷ message (get_response (key (bytes "cur")) (bytes "late"))
    ∷ message (HostResponse.not_found new_id)
    ∷ message (get_response (key old_id) (bytes "st"))
    ∷ [])

abbrev adopted_state : LegacyAwareGet
adopted_state = record { state = bytes "st"; source = legacy 0 old_id }

abbrev after_three : WebApi
after_three = record {
  sent = get (bytes "cur") false ∷ get new_id false ∷ get old_id false ∷ [];
  sends = [];
  recvs = [];
}

old_state_run :
    probe_all_keys test_crypto test_stdlib (bytes "cur") (bytes "p") lineage (bytes "1s") old_state
    ≡ (found adopted_state, after_three)
unfolding probe_all_keys walk conclude inspect newest_first insert_candidate candidates_from
    legacy_instance_id get_state request send next_error finish await get_answer
    dispatch_get_response get_not_found from_get_state_err contains_text starts_with
    retry_disposition is_authoritative eqb cmp
old_state_run = refl

probe_all_keys-Adopted_example :
    (bytes "st" ≢ [])
    × (((legacy 0 old_id ≡ current)
          × (get_state test_stdlib (bytes "cur") false (bytes "1s") old_state
              ≡ (got (bytes "st"), after_three)))
        ⊎ Adopted test_crypto test_stdlib
            (bytes "cur")
            (bytes "p")
            lineage
            (bytes "1s")
            old_state
            adopted_state
            after_three)
probe_all_keys-Adopted_example =
    probe_all_keys-Adopted test_crypto test_stdlib (bytes "cur") (bytes "p") lineage (bytes "1s")
      old_state adopted_state after_three old_state_run

get_state_with_legacy_fallback-Passes_example :
    (slept : List ℕ) × (result : LegacyAwareGet ⊎ Failure) × (w' : WebApi)
    × (get_state_with_legacy_fallback test_crypto test_stdlib
          (bytes "cur")
          (bytes "p")
          lineage
          (bytes "1s")
          old_state
        ≡ some (record { result = result; web_api = w'; slept = slept }))
    × Passes test_crypto test_stdlib
        (bytes "cur")
        (bytes "p")
        lineage
        (bytes "1s")
        1
        old_state
        slept
        result
        w'
    × (length slept < 4)
    × (sum slept ≤ 14)
get_state_with_legacy_fallback-Passes_example =
    get_state_with_legacy_fallback-Passes test_crypto test_stdlib (bytes "cur") (bytes "p") lineage
      (bytes "1s") old_state

-- The newer generation does not answer.
abbrev silent : WebApi
silent = arriving (message (HostResponse.not_found (bytes "cur")) ∷ elapsed ∷ [])

abbrev silent_outcomes : Outcomes
silent_outcomes =
    (current_key (bytes "cur"), ProbeOutcome.not_found)
    ∷ (legacy_key 1 new_id, ProbeOutcome.timeout)
    ∷ []

silent_run :
    probe_all_keys test_crypto test_stdlib (bytes "cur") (bytes "p") lineage (bytes "1s") silent ≡ (
      failed silent_outcomes,
      record { sent = get (bytes "cur") false ∷ get new_id false ∷ []; sends = []; recvs = [] },
    )
unfolding probe_all_keys walk conclude inspect newest_first insert_candidate candidates_from
    legacy_instance_id get_state request send next_error finish await get_answer
    dispatch_get_response get_not_found get_timed_out from_get_state_err contains_text starts_with
    retry_disposition is_authoritative eqb cmp
silent_run = refl

format_fallback_failure-probe_all_keys_example : Tells 2 (format_fallback_failure silent_outcomes)
format_fallback_failure-probe_all_keys_example =
    format_fallback_failure-probe_all_keys test_crypto test_stdlib (bytes "cur") (bytes "p") lineage
      (bytes "1s") silent _ silent_outcomes silent_run

-- A late response to another upload comes before the notification.
abbrev uploading : WebApi
uploading = arriving (
    message (put_response (key (bytes "stale")))
    ∷ message (update_notification (key (bytes "pw")))
    ∷ [])

upload_run :
    (put_contract test_stdlib (bytes "w") (bytes "p") (bytes "s") (bytes "1s") uploading).0
    ≡ got (key (bytes "pw"))
unfolding put_contract request send next_error finish await put_answer dispatch_put_response eqb cmp
upload_run = refl

put_contract-ConfirmsPut_example :
    (bytes "pw" ≡ bytes "pw")
    × ((pre : List Recv) × (m : HostResponse) × (post : List Recv) × (uploading.recvs
          ≡ pre ++ message m ∷ post)
        × ConfirmsPut (bytes "pw") m)
put_contract-ConfirmsPut_example =
    put_contract-ConfirmsPut test_stdlib (bytes "w") (bytes "p") (bytes "s") (bytes "1s") uploading
      (key (bytes "pw")) upload_run

abbrev downloading : WebApi
downloading = arriving (
    message (get_response (key (bytes "b")) (bytes "x"))
    ∷ message other
    ∷ message (get_response (key (bytes "a")) (bytes "st"))
    ∷ elapsed
    ∷ [])

nothing_fails : (next_error []).0 ≡ none
unfolding next_error
nothing_fails = refl

different : bytes "b" ≢ bytes "a"
different = λ e. ground arith

get_state-GetEnds_example :
    ((get_state test_stdlib (bytes "a") false (bytes "1s") downloading).0 ≡ got (bytes "st"))
    × ((get_state test_stdlib (bytes "a") false (bytes "1s") downloading).1.recvs ≡ elapsed ∷ [])
get_state-GetEnds_example =
    get_state-GetEnds test_stdlib (bytes "a") false (bytes "1s") downloading
      (get_response (key (bytes "b")) (bytes "x") ∷ other ∷ [])
      (message (get_response (key (bytes "a")) (bytes "st")) ∷ elapsed ∷ []) (elapsed ∷ [])
      (got (bytes "st")) nothing_fails refl (different, (tt, tt))
      (stored (key (bytes "a")) (bytes "st") (elapsed ∷ []) refl)

retry_backoff_bounds_example :
    (retry_backoff 3 ≤ 60)
    × (retry_backoff 3 ≤ retry_backoff 4)
    × (((3 ≤ 5) × (retry_backoff 3 ≡ 8)) ⊎ ((5 < 3) × (retry_backoff 3 ≡ 60)))
retry_backoff_bounds_example = retry_backoff_bounds 3

-- The first upload ends at its deadline, and the second is confirmed.
abbrev retried : WebApi
retried = arriving (elapsed ∷ message host_ok ∷ [])

put_pack-Tries_example :
    let out = put_pack test_crypto test_stdlib (bytes "w") (bytes "pack") (bytes "1s") retried in
    (n : ℕ) × Tries test_crypto test_stdlib
      (bytes "w")
      (bytes "pack")
      (bytes "1s")
      n
      retried
      out.result
      out.web_api
    × (n ≤ 3)
    × ((n ≡ 3) ⊎ ((key : ContractKey) × (out.result ≡ got key)))
    × (out.slept ≡ backoffs 1 n)
    × (out.cached
        ≡ to_cache test_crypto test_stdlib (bytes "w") (bytes "pack") (bytes "1s") out.result)
put_pack-Tries_example =
    put_pack-Tries test_crypto test_stdlib (bytes "w") (bytes "pack") (bytes "1s") retried
