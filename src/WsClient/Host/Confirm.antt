-- ===== src/WsClient/Host/Confirm.antt =====
-- What confirms a request: the answers of the three dispatch functions,
-- crates/freenet-git/src/wsclient.rs.
use freenet_git.Prelude.{
  ◌≡◌, ◌≢◌, refl, ◌∙◌, ap, Bool, true, none, some, List, [], ◌∷◌, ◌++◌, Bytes, map, All, arith,
}
use freenet_git.BTreeMap.Order.{eqb, eqb→eq, eqb_refl, eqb_of_ne}
use freenet_git.WsClient.Host.{
  ContractKey, Stdlib, HostResponse, put_response, get_response, update_response,
  update_notification, host_ok, update, Recv, message, failed, elapsed, WebApi, Answer, got, lost,
  next_error, await, put_answer, dispatch_put_response, put_contract, get_answer,
  dispatch_get_response, get_state, get_not_found, get_timed_out, recv_failed, update_answer,
  dispatch_update_response, update_contract_key, update_state,
}
use freenet_git.WsClient.Host.Order.{request-got, request-sent, request-skips}

-- A message says that the contract of this id has been stored.
abbrev pub ConfirmsPut : Bytes → HostResponse → Type 0
ConfirmsPut id (put_response key) = key.id ≡ id
ConfirmsPut id (update_notification key) = key.id ≡ id
ConfirmsPut id host_ok = Unit
ConfirmsPut id _ = ⊥

put_answer-ConfirmsPut :
    (m : HostResponse) (expected key : ContractKey)
    → put_answer (dispatch_put_response m expected) ≡ some (got key)
    → (key.id ≡ expected.id) × ConfirmsPut expected.id m
unfolding put_answer dispatch_put_response
put_answer-ConfirmsPut (put_response k) expected key h = ground (arith, eqb→eq k.id expected.id)
put_answer-ConfirmsPut (update_notification k) expected key h =
    ground (arith, eqb→eq k.id expected.id)
put_answer-ConfirmsPut host_ok expected key h = (ground arith, tt)
put_answer-ConfirmsPut _ expected key h = absurd (ground arith)

-- If an upload succeeds, then the key it returns has the id that was computed for the code and the
-- parameters, and one of the messages that arrived is a put response or an update notification for
-- that id, or a bare `Ok`, which names no contract.
pub put_contract-ConfirmsPut :
    (lib : Stdlib) (wasm parameters state wait : Bytes) (w : WebApi) (key : ContractKey)
    → (put_contract lib wasm parameters state wait w).0 ≡ got key
    → (key.id ≡ (lib.from_params_and_code parameters wasm).id)
      × ((pre : List Recv) × (m : HostResponse) × (post : List Recv) × (w.recvs
            ≡ pre ++ message m ∷ post)
          × ConfirmsPut (lib.from_params_and_code parameters wasm).id m)
unfolding put_contract
put_contract-ConfirmsPut lib wasm parameters state wait w key h =
    let expected = lib.from_params_and_code parameters wasm in
    let (pre, m, post, arrived, a) = request-got _ _ _ _ _ w key h in
    let (same, confirmed) = put_answer-ConfirmsPut m expected key a in
    (same, (pre, m, post, arrived, confirmed))

-- A message says that the update of the contract of this id has been applied.
abbrev pub ConfirmsUpdate : Bytes → HostResponse → Type 0
ConfirmsUpdate id (update_response key) = key.id ≡ id
ConfirmsUpdate id (update_notification key) = key.id ≡ id
ConfirmsUpdate id host_ok = Unit
ConfirmsUpdate id _ = ⊥

update_answer-ConfirmsUpdate :
    (lib : Stdlib) (m : HostResponse) (id : Bytes)
    → update_answer lib id (dispatch_update_response m id) ≡ some (got tt)
    → ConfirmsUpdate id m
unfolding update_answer dispatch_update_response
update_answer-ConfirmsUpdate lib (update_response k) id h = ground (arith, eqb→eq k.id id)
update_answer-ConfirmsUpdate lib (update_notification k) id h = ground (arith, eqb→eq k.id id)
update_answer-ConfirmsUpdate lib host_ok id h = tt
update_answer-ConfirmsUpdate lib (HostResponse.not_found i) id h = absurd (ground arith)
update_answer-ConfirmsUpdate lib _ id h = absurd (ground arith)

-- If an update succeeds, then the request that was sent names the id and the real hash of the
-- contract's code, and a message that arrived is a bare `Ok` or confirms an update of that id.
pub update_state-ConfirmsUpdate :
    (lib : Stdlib) (id wasm delta wait : Bytes) (w : WebApi)
    → (update_state lib id wasm delta wait w).0 ≡ got tt
    → ((update_state lib id wasm delta wait w).1.sent
        ≡ w.sent ++ update (record { id = id; code_hash = lib.from_code wasm }) delta ∷ [])
      × ((pre : List Recv) × (m : HostResponse) × (post : List Recv) × (w.recvs
            ≡ pre ++ message m ∷ post)
          × ConfirmsUpdate id m)
unfolding update_state update_contract_key
update_state-ConfirmsUpdate lib id wasm delta wait w h =
    let (pre, m, post, arrived, a) = request-got _ _ _ _ _ w tt h in
    (request-sent _ _ _ _ _ w, (pre, m, post, arrived, update_answer-ConfirmsUpdate lib m id a))

-- A message that a download of this id passes over.
abbrev pub Ignored : Bytes → HostResponse → Type 0
Ignored id (get_response key state) = key.id ≢ id
Ignored id (HostResponse.not_found i) = i ≢ id
Ignored id _ = Unit

-- How a download of this id ends on what arrives next, and what it leaves.
pub data GetEnds (lib : Stdlib) (id wait : Bytes)
    : List Recv → Answer Bytes → List Recv → Type 0 where
  stored :
      (key : ContractKey) (bs : Bytes) (rs : List Recv)
      → key.id ≡ id
      → GetEnds lib id wait (message (get_response key bs) ∷ rs) (got bs) rs
  not_found :
      (rs : List Recv)
      → GetEnds lib id wait
          (message (HostResponse.not_found id) ∷ rs)
          (lost (get_not_found lib id))
          rs
  broken :
      (e : Bytes) (rs : List Recv) → GetEnds lib id wait (failed e ∷ rs) (lost (recv_failed e)) rs
  late : (rs : List Recv) → GetEnds lib id wait (elapsed ∷ rs) (lost (get_timed_out wait)) rs
  silent : GetEnds lib id wait [] (lost (get_timed_out wait)) []

Ignored-unanswered :
    (lib : Stdlib) (id : Bytes) (pre : List HostResponse)
    → All (Ignored id) pre
    → All (λ m. get_answer lib id (dispatch_get_response m id) ≡ none) pre
unfolding get_answer dispatch_get_response
Ignored-unanswered lib id [] h = tt
Ignored-unanswered lib id (m ∷ pre) h = (one m h.0, Ignored-unanswered lib id pre h.1)
  where
    one : (m : HostResponse) → Ignored id m → get_answer lib id (dispatch_get_response m id) ≡ none
    one (get_response key state) n = rw (eqb_of_ne key.id id n)
    one (HostResponse.not_found i) n = rw (eqb_of_ne i id n)
    one _ n = refl

eqb_of_eq : (a b : Bytes) → a ≡ b → eqb a b ≡ true
eqb_of_eq a b e = rw (← e) (eqb_refl a)

GetEnds-await :
    (lib : Stdlib) (id wait : Bytes) (rs rest : List Recv) (r : Answer Bytes)
    → GetEnds lib id wait rs r rest
    → await
        (λ m. get_answer lib id (dispatch_get_response m id))
        recv_failed
        (get_timed_out wait)
        rs
      ≡ (r, rest)
unfolding await get_answer dispatch_get_response
GetEnds-await lib id wait _ _ _ (stored key bs rs e) = rw (eqb_of_eq key.id id e, await)
GetEnds-await lib id wait _ _ _ (not_found rs) = rw (eqb_refl id, await)
GetEnds-await lib id wait _ _ _ (broken e rs) = refl
GetEnds-await lib id wait _ _ _ (late rs) = refl
GetEnds-await lib id wait _ _ _ silent = refl

-- Where the request is sent and only messages about other contracts or of other kinds arrive
-- first: a download ends on what arrives next as `GetEnds` says, for a state of the contract, an
-- authoritative absence, an error, the deadline and silence alike, and leaves what comes after it.
pub get_state-GetEnds :
    (lib : Stdlib) (id : Bytes) (subscribe : Bool) (wait : Bytes) (w : WebApi)
    (pre : List HostResponse) (rs rest : List Recv) (r : Answer Bytes)
    → (next_error w.sends).0 ≡ none
    → w.recvs ≡ map message pre ++ rs
    → All (Ignored id) pre
    → GetEnds lib id wait rs r rest
    → ((get_state lib id subscribe wait w).0 ≡ r)
      × ((get_state lib id subscribe wait w).1.recvs ≡ rest)
unfolding get_state
get_state-GetEnds lib id subscribe wait w pre rs rest r sent arrived ignored ends =
    let (p, q) =
      request-skips _ _ _ _ _ w pre rs sent arrived (Ignored-unanswered lib id pre ignored) in
    let e = GetEnds-await lib id wait rs rest r ends in (p ∙ ap (λ x. x.0) e, q ∙ ap (λ x. x.1) e)
