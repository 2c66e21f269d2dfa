-- ===== src/WsClient/Host.antt =====
-- Requests, the dispatch of the messages that arrive, and the three receive loops:
-- crates/freenet-git/src/wsclient.rs.
pub mod Order
pub mod Confirm
use freenet_git.Prelude.{
  Bool, true, false, Option, none, some, List, [], ◌∷◌, ◌++◌, Bytes, bytes, if◌then◌else◌,
  contains_text,
}
use freenet_git.BTreeMap.Order.{eqb}

pub record ContractKey : Type 0 where
  pub id : Bytes
  pub code_hash : Bytes

-- What the client uses of `freenet_stdlib`: `ContractKey::from_params_and_code`, its arguments in
-- this order, `CodeHash::from_code`, and the text of an instance id.
pub record Stdlib : Type 0 where
  pub from_params_and_code : Bytes → Bytes → ContractKey
  pub from_code : Bytes → Bytes
  pub show_id : Bytes → Bytes

-- The messages that some loop tells apart; `other` is any of the rest.
pub data HostResponse : Type 0 where
  put_response : ContractKey → HostResponse
  get_response : ContractKey → Bytes → HostResponse
  update_response : ContractKey → HostResponse
  update_notification : ContractKey → HostResponse
  not_found : Bytes → HostResponse
  host_ok : HostResponse
  other : HostResponse

-- The contract's code, parameters and state; an id; a key and a delta.
pub data ContractRequest : Type 0 where
  put : Bytes → Bytes → Bytes → ContractRequest
  get : Bytes → Bool → ContractRequest
  update : ContractKey → Bytes → ContractRequest

-- What one wait on the socket ends with: a message, an error, or the deadline.
pub data Recv : Type 0 where
  message : HostResponse → Recv
  failed : Bytes → Recv
  elapsed : Recv

-- A connection: what was sent, the error of each send to come, if any, and what is to arrive. Past
-- the ends, sends succeed and nothing arrives.
pub record WebApi : Type 0 where
  pub sent : List ContractRequest
  pub sends : List (Option Bytes)
  pub recvs : List Recv

-- The message of an `anyhow` error.
abbrev pub Error : Type 0
Error = Bytes

-- `anyhow::Result`.
pub data Answer (A : Type 0) : Type 0 where
  got : A → Answer A
  lost : Error → Answer A

-- The error of the next send, and of those after it.
unfoldable pub next_error : List (Option Bytes) → Option Bytes × List (Option Bytes)
next_error [] = (none, [])
next_error (e ∷ es) = (e, es)

unfoldable pub send : ContractRequest → WebApi → Option Bytes × WebApi
send req w =
    let (e, es) = next_error w.sends in (e, record w { sent = w.sent ++ req ∷ []; sends = es })

-- A receive loop: the first message that the loop answers, an error or the deadline ends it.
unfoldable pub await :
    {A : Type 0}
    → (HostResponse → Option (Answer A))
    → (Bytes → Error)
    → Error
    → List Recv
    → Answer A × List Recv
await answer recv_error timed_out [] = (lost timed_out, [])
await answer recv_error timed_out (elapsed ∷ rs) = (lost timed_out, rs)
await answer recv_error timed_out (failed e ∷ rs) = (lost (recv_error e), rs)
await answer recv_error timed_out (message m ∷ rs) = elim (answer m) [
  | some r ↦ (r, rs)
  | none ↦ await answer recv_error timed_out rs
]

-- A failed send is the result; otherwise the receive loop's.
unfoldable pub finish :
    {A : Type 0} → Bytes → Option Bytes → Answer A × List Recv → WebApi → Answer A × WebApi
finish send_error none r w = (r.0, record w { recvs = r.1 })
finish send_error (some msg) r w = (lost (send_error ++ msg), w)

-- A request and its receive loop.
unfoldable pub request :
    {A : Type 0}
    → ContractRequest
    → Bytes
    → (HostResponse → Option (Answer A))
    → (Bytes → Error)
    → Error
    → WebApi
    → Answer A × WebApi
request req send_error answer recv_error timed_out w =
    let (e, w') = send req w in finish send_error e (await answer recv_error timed_out w'.recvs) w'

pub data PutDispatch : Type 0 where
  success : ContractKey → PutDispatch
  continue : PutDispatch

unfoldable pub dispatch_put_response : HostResponse → ContractKey → PutDispatch
dispatch_put_response (put_response key) expected =
    if eqb key.id expected.id then PutDispatch.success key else PutDispatch.continue
dispatch_put_response (update_notification key) expected =
    if eqb key.id expected.id then PutDispatch.success key else PutDispatch.continue
dispatch_put_response host_ok expected = PutDispatch.success expected
dispatch_put_response _ expected = PutDispatch.continue

unfoldable pub put_answer : PutDispatch → Option (Answer ContractKey)
put_answer (PutDispatch.success key) = some (got key)
put_answer PutDispatch.continue = none

-- The text of an error of `recv`.
unfoldable pub recv_failed : Bytes → Error
recv_failed e = bytes "recv: " ++ e

-- `timeout` is the text of the duration.
unfoldable pub put_contract :
    Stdlib → Bytes → Bytes → Bytes → Bytes → WebApi → Answer ContractKey × WebApi
put_contract lib wasm parameters state timeout =
    let expected = lib.from_params_and_code parameters wasm in
    request (put wasm parameters state) (bytes "send PUT: ")
      (λ m. put_answer (dispatch_put_response m expected)) recv_failed
      (bytes "timed out waiting for PUT confirmation after " ++ timeout)

pub data GetDispatch : Type 0 where
  state : Bytes → GetDispatch
  not_found : GetDispatch
  continue : GetDispatch

unfoldable pub dispatch_get_response : HostResponse → Bytes → GetDispatch
dispatch_get_response (get_response key bs) id =
    if eqb key.id id then GetDispatch.state bs else GetDispatch.continue
dispatch_get_response (HostResponse.not_found nf_id) id =
    if eqb nf_id id then GetDispatch.not_found else GetDispatch.continue
dispatch_get_response _ id = GetDispatch.continue

-- `GET_TIMEOUT_PREFIX` and `GET_NOT_FOUND_SUFFIX`.
abbrev pub get_timeout_prefix : Bytes
get_timeout_prefix = bytes "timed out waiting for GET response"

abbrev pub get_not_found_suffix : Bytes
get_not_found_suffix = bytes "not found on the network"

unfoldable pub get_not_found : Stdlib → Bytes → Error
get_not_found lib id = bytes "contract " ++ lib.show_id id ++ bytes " " ++ get_not_found_suffix

unfoldable pub get_timed_out : Bytes → Error
get_timed_out timeout = get_timeout_prefix ++ bytes " after " ++ timeout

unfoldable pub get_answer : Stdlib → Bytes → GetDispatch → Option (Answer Bytes)
get_answer lib id (GetDispatch.state bs) = some (got bs)
get_answer lib id GetDispatch.not_found = some (lost (get_not_found lib id))
get_answer lib id GetDispatch.continue = none

unfoldable pub get_state : Stdlib → Bytes → Bool → Bytes → WebApi → Answer Bytes × WebApi
get_state lib id subscribe timeout =
    request (get id subscribe) (bytes "send GET: ")
      (λ m. get_answer lib id (dispatch_get_response m id)) recv_failed (get_timed_out timeout)

pub data UpdateDispatch : Type 0 where
  success : UpdateDispatch
  not_found : UpdateDispatch
  continue : UpdateDispatch

unfoldable pub dispatch_update_response : HostResponse → Bytes → UpdateDispatch
dispatch_update_response (update_response key) id =
    if eqb key.id id then UpdateDispatch.success else UpdateDispatch.continue
dispatch_update_response (update_notification key) id =
    if eqb key.id id then UpdateDispatch.success else UpdateDispatch.continue
dispatch_update_response (HostResponse.not_found nf_id) id =
    if eqb nf_id id then UpdateDispatch.not_found else UpdateDispatch.continue
dispatch_update_response host_ok id = UpdateDispatch.success
dispatch_update_response _ id = UpdateDispatch.continue

-- The three bytes before " retry" are a dash.
abbrev pub update_not_found : Bytes
update_not_found =
    bytes " not found on the network (cannot UPDATE). The repo state was readable a moment ago, "
    ++ bytes "so this is usually transient routing rather than lost data "
    ++ (226 ∷ 128 ∷ 148 ∷ [])
    ++ bytes " retry the push, and if it persists run `freenet-git rescue <repo-url>`."

unfoldable pub update_answer : Stdlib → Bytes → UpdateDispatch → Option (Answer (Unit {0}))
update_answer lib id UpdateDispatch.success = some (got tt)
update_answer lib id UpdateDispatch.not_found =
    some (lost (bytes "contract " ++ lib.show_id id ++ update_not_found))
update_answer lib id UpdateDispatch.continue = none

unfoldable pub update_contract_key : Stdlib → Bytes → Bytes → ContractKey
update_contract_key lib id wasm = record { id = id; code_hash = lib.from_code wasm }

unfoldable pub is_missing_contract_message : Bytes → Bool
is_missing_contract_message msg = contains_text (bytes "missing contract") msg

unfoldable pub update_recv_error : Stdlib → Bytes → Bytes → Error
update_recv_error lib id host_message =
    if is_missing_contract_message host_message
    then bytes "the local Freenet node could not resolve contract "
      ++ lib.show_id id
      ++ bytes
          " to apply the update to. An update is applied on your own node before it is sent to "
      ++ bytes
          "the network, so this is a local condition despite what the host's wording suggests. "
      ++ bytes "Check that you are pushing through the node the repo was published to (`git push` "
      ++ bytes "uses FREENET_GIT_WS_URL, `freenet-git create` uses --publish-to), and that it is "
      ++ bytes "running and past startup. (host said: "
      ++ host_message
      ++ bytes ")"
    else recv_failed host_message

unfoldable pub update_state :
    Stdlib → Bytes → Bytes → Bytes → Bytes → WebApi → Answer (Unit {0}) × WebApi
update_state lib id wasm delta timeout =
    request (update (update_contract_key lib id wasm) delta) (bytes "send UPDATE: ")
      (λ m. update_answer lib id (dispatch_update_response m id)) (update_recv_error lib id)
      (bytes "timed out waiting for UPDATE response after " ++ timeout)
