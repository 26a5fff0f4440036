-- ===== src/SignalClient/Connect/Resuming.antt =====
-- Join and Reconnect: what the first response of a connection means.

use ziti_livekit_example.Prelude.{
  String, ◌<>◌, ◌≡◌, ◌≢◌, ◌⊎◌, inl, inr, refl, ap, ◌∙◌, true, Option, none, some, ◌++◌, arith,
}
use ziti_livekit_example.Outcome.{reason, Result, ok, err, ◌>>=◌}
use ziti_livekit_example.Outcome.Inversion.{bind-eq-ok, lift-eq-ok}
use ziti_livekit_example.SignalClient.Types.{
  Kind, join, leave, reconnect, SignalResponse, on_leave, ConnectParams, Websocket, Client,
  run_callback,
}
use ziti_livekit_example.SignalClient.Reader.{handle_pending}
use ziti_livekit_example.SignalClient.Reader.Dispatch.{
  runs, runs_of, handle_response_lem, run_callback_lem,
}
use ziti_livekit_example.SignalClient.Connect.{
  join_response, reconnect_kind, reconnect_response, connect, join_room, reconnect_room,
}

join_response-eq-ok :
    (o : Option SignalResponse) {t : String}
    → join_response o ≡ ok t
    → o ≡ some (record { kind = join; payload = t })
unfolding join_response
join_response-eq-ok o h = ground arith

module _ (ws : Websocket) where
  -- Join gives only the payload of a join response, the first that comes on the connection it made.
  pub join_room-eq-ok :
      (url_prefix token : String) (params : ConnectParams) (c : Client ws) {t : String}
      {c' : Client ws}
      → join_room ws url_prefix token params c ≡ (ok t, c')
      → connect ws url_prefix token params c ≡ (ok (some (record { kind = join; payload = t })), c')
  unfolding join_room
  join_room-eq-ok url_prefix token params c {t} {c'} h =
      let (o, u, h1, k1) = bind-eq-ok _ _ c h in
      let (j, same) = lift-eq-ok (join_response o) k1 in
      h1
      ∙ ap (λ x. (ok x, u)) (join_response-eq-ok o j)
      ∙ ap (λ x. (ok (some (record { kind = join; payload = t })), x)) same

  -- What Reconnect makes of the response that connect gave with a client: a reconnect response is
  -- returned; a leave response is handed to OnLeave and refused; and any other is kept for the
  -- reader, which then handles it and keeps it no longer.
  pub data Resumed (res : SignalResponse) (c : Client ws)
      : Result (Option String) × Client ws → Type 0 where
    resumed :
        res.kind ≡ reconnect
        → Resumed res c (ok (some res.payload), record c { pending_response = none })
    left :
        res.kind ≡ leave
        → Resumed res c (
          err (reason ("reconnect received left, reason: " <> res.payload)),
          record c {
            pending_response = none;
            delivered = c.delivered ++ runs_of c.installed (some on_leave) res.payload;
          },
        )
    kept :
        {c' : Client ws}
        → res.kind ≢ reconnect
        → res.kind ≢ leave
        → c' ≡ record c { pending_response = some res }
        → handle_pending ws c'.pending_response c'
          ≡ record c { pending_response = none; delivered = c.delivered ++ runs c.installed res }
        → Resumed res c (ok none, c')

  reconnect_kind_cases :
      (k : Kind) (res : SignalResponse) (c : Client ws)
      → (k ≡ reconnect)
        ⊎ (k ≡ leave)
        ⊎ ((k ≢ reconnect)
            × (k ≢ leave)
            × (reconnect_kind ws k res c ≡ (ok none, record c { pending_response = some res })))
  unfolding reconnect_kind ◌>>=◌
  reconnect_kind_cases reconnect res c = inl refl
  reconnect_kind_cases leave res c = inr (inl refl)
  reconnect_kind_cases _ res c = inr (inr ((λ q. cc q), (λ q. cc q), refl))

  handle_pending_lem :
      (res : SignalResponse) (c : Client ws)
      → handle_pending ws (some res) (record c { pending_response = some res })
        ≡ record c { pending_response = none; delivered = c.delivered ++ runs c.installed res }
  unfolding handle_pending
  handle_pending_lem res c =
      ap (λ (x : Client ws). record x { pending_response = none })
        (handle_response_lem ws res (record c { pending_response = some res }))

  reconnect_response-Resumed :
      (res : SignalResponse) (c : Client ws)
      → Resumed res c (reconnect_response ws (some res) (record c { pending_response = none }))
  unfolding reconnect_response reconnect_kind ◌>>=◌
  reconnect_response-Resumed res c =
      elim (reconnect_kind_cases res.kind res (record c { pending_response = none })) [
        | inl r ↦
            let same : reconnect_kind ws res.kind res (record c { pending_response = none })
                ≡ (ok (some res.payload), record c { pending_response = none }) =
              ap (λ k. reconnect_kind ws k res (record c { pending_response = none })) r in
            rw same (resumed r)
        | inr (inl l) ↦
            let same : reconnect_kind ws res.kind res (record c { pending_response = none }) ≡ (
              err (reason ("reconnect received left, reason: " <> res.payload)),
              run_callback on_leave res.payload (record c { pending_response = none }),
            ) =
              ap (λ k. reconnect_kind ws k res (record c { pending_response = none })) l in
            rw
              (
                same,
                run_callback_lem ws on_leave res.payload (record c { pending_response = none }),
              )
              (left l)
        | inr (inr (nr, nl, e)) ↦ rw e (kept nr nl refl (handle_pending_lem res c))
      ]

  -- Where connect, asked to reconnect, gives a response, Reconnect returns the payload of a reconnect
  -- response, hands a leave response to OnLeave and fails, and keeps any other for the reader, which
  -- handles it first and keeps it no longer.
  pub reconnect_room-Resumed :
      (url_prefix token : String) (params : ConnectParams) (c : Client ws) {res : SignalResponse}
      {c' : Client ws}
      → connect ws url_prefix token (record params { reconnect = true }) c ≡ (ok (some res), c')
      → Resumed res c' (reconnect_room ws url_prefix token params c)
  unfolding reconnect_room ◌>>=◌
  reconnect_room-Resumed url_prefix token params c {res} {c'} h =
      rw h (reconnect_response-Resumed res c')
