-- ===== src/WsClient/Host/Order.antt =====
-- Which message ends a receive loop of crates/freenet-git/src/wsclient.rs.
use freenet_git.Prelude.{
  ◌≡◌, refl, inl, inr, Option, none, some, List, [], ◌∷◌, ◌++◌, Bytes, map, All, arith,
  Option-cases,
}
use freenet_git.WsClient.Host.{
  HostResponse, ContractRequest, Recv, message, failed, elapsed, WebApi, Error, Answer, got,
  next_error, send, finish, await, request,
}

module _ {A : Type 0} (answer : HostResponse → Option (Answer A)) (recv_error : Bytes → Error)
    (timed_out : Error) where
  -- Messages without an answer are passed over.
  pub await-skips :
      (pre : List HostResponse) (rs : List Recv)
      → All (λ m. answer m ≡ none) pre
      → await answer recv_error timed_out (map message pre ++ rs)
        ≡ await answer recv_error timed_out rs
  unfolding await
  await-skips [] rs h = refl
  await-skips (m ∷ pre) rs h = rw (h.0) (await-skips pre rs h.1)

  -- A success is the answer to a message that arrived.
  pub await-got :
      (rs : List Recv) (a : A)
      → (await answer recv_error timed_out rs).0 ≡ got a
      → (pre : List Recv) × (m : HostResponse) × (post : List Recv) × (rs ≡ pre ++ message m ∷ post)
        × (answer m ≡ some (got a))
  unfolding await
  await-got [] a h = absurd (ground arith)
  await-got (elapsed ∷ rs) a h = absurd (ground arith)
  await-got (failed e ∷ rs) a h = absurd (ground arith)
  await-got (message m ∷ rs) a h = elim (Option-cases (answer m)) [
    | inl unanswered ↦
        let (pre, n, post, p, q) = await-got rs a (ground arith) in
        (message m ∷ pre, n, post, rw p, q)
    | inr (r, e) ↦ ([], m, rs, refl, ground arith)
  ]

finish-got :
    {A : Type 0} (send_error : Bytes) (e : Option Bytes) (r : Answer A × List Recv) (w : WebApi)
    (a : A)
    → (finish send_error e r w).0 ≡ got a
    → r.0 ≡ got a
unfolding finish
finish-got send_error none r w a h = h
finish-got send_error (some msg) r w a h = absurd (ground arith)

finish-sent :
    {A : Type 0} (send_error : Bytes) (e : Option Bytes) (r : Answer A × List Recv) (w : WebApi)
    → (finish send_error e r w).1.sent ≡ w.sent
unfolding finish
finish-sent send_error none r w = refl
finish-sent send_error (some msg) r w = refl

module _ {A : Type 0} (req : ContractRequest) (send_error : Bytes)
    (answer : HostResponse → Option (Answer A)) (recv_error : Bytes → Error) (timed_out : Error)
    (w : WebApi) where
  -- A success comes from a message that arrived.
  pub request-got :
      (a : A)
      → (request req send_error answer recv_error timed_out w).0 ≡ got a
      → (pre : List Recv) × (m : HostResponse) × (post : List Recv) × (w.recvs
          ≡ pre ++ message m ∷ post)
        × (answer m ≡ some (got a))
  unfolding request send
  request-got a h =
      let (e, w') = send req w in
      let answered = await answer recv_error timed_out w'.recvs in
      await-got answer recv_error timed_out w.recvs a (finish-got send_error e answered w' a h)

  pub request-sent :
      (request req send_error answer recv_error timed_out w).1.sent ≡ w.sent ++ req ∷ []
  unfolding request send
  request-sent =
      let (e, w') = send req w in
      finish-sent send_error e (await answer recv_error timed_out w'.recvs) w'

  -- Once the request is sent, the messages without an answer change nothing.
  pub request-skips :
      (pre : List HostResponse) (rs : List Recv)
      → (next_error w.sends).0 ≡ none
      → w.recvs ≡ map message pre ++ rs
      → All (λ m. answer m ≡ none) pre
      → ((request req send_error answer recv_error timed_out w).0
          ≡ (await answer recv_error timed_out rs).0)
        × ((request req send_error answer recv_error timed_out w).1.recvs
            ≡ (await answer recv_error timed_out rs).1)
  unfolding request send finish
  request-skips pre rs sent e h =
      rw (sent, e, await-skips answer recv_error timed_out pre rs h) (refl, refl)
