-- ===== src/SignalClient/Requests/Wire.antt =====
-- What sending a request puts on the connection.
use mathlib.Core.Path.{subst}
use ziti_livekit_example.Prelude.{String, ◌≡◌, refl, Option, none, some, sym}
use ziti_livekit_example.Outcome.{Error, reason, Result, ok, err, panic, fail, ◌>>=◌}
use ziti_livekit_example.SignalClient.Types.{SignalRequest, Websocket, Client, on_net}
use ziti_livekit_example.SignalClient.Requests.{send_on, send_request}

module _ (ws : Websocket) where
  -- What sending a request to a client gives: it is refused without a connection, or where it cannot
  -- be marshalled, and nothing is sent; or its bytes are written to the connection, once.
  pub data Sends (req : SignalRequest) (c : Client ws)
      : Result (Unit {0}) × Client ws → Type 0 where
    not_connected : c.conn ≡ none → Sends req c (err (reason "client is not connected"), c)
    refused :
        {conn : ws.Conn} {e : Error}
        → c.conn ≡ some conn
        → ws.proto_marshal req ≡ err e
        → Sends req c (err e, c)
    crashed :
        {conn : ws.Conn} {t : String}
        → c.conn ≡ some conn
        → ws.proto_marshal req ≡ panic t
        → Sends req c (panic t, c)
    written :
        {conn : ws.Conn} {payload : String} {r : Result (Unit {0})} {net' : ws.Net}
        → c.conn ≡ some conn
        → ws.proto_marshal req ≡ ok payload
        → ws.write_message conn payload c.net ≡ (r, net')
        → Sends req c (r, record c { net = net' })

  send_on-marshalled :
      (req : SignalRequest) (c : Client ws) (conn : ws.Conn) (m : Result String)
      → c.conn ≡ some conn
      → ws.proto_marshal req ≡ m
      → Sends req c (send_on ws (some conn) req c)
  unfolding send_on on_net ◌>>=◌
  send_on-marshalled req c conn (ok payload) h k =
      let out : send_on ws (some conn) req c ≡ (
        (ws.write_message conn payload c.net).0,
        record c { net = (ws.write_message conn payload c.net).1 },
      ) =
        simp k in
      subst (Sends req c) (sym out) (written h k refl)
  send_on-marshalled req c conn (err e) h k =
      let out : send_on ws (some conn) req c ≡ (err e, c) = simp k in
      subst (Sends req c) (sym out) (refused h k)
  send_on-marshalled req c conn (panic t) h k =
      let out : send_on ws (some conn) req c ≡ (panic t, c) = simp k in
      subst (Sends req c) (sym out) (crashed h k)

  send_on-Sends :
      (req : SignalRequest) (c : Client ws) (o : Option ws.Conn)
      → c.conn ≡ o
      → Sends req c (send_on ws o req c)
  unfolding send_on fail
  send_on-Sends req c none h = not_connected h
  send_on-Sends req c (some conn) h = send_on-marshalled req c conn _ h refl

  -- SendRequest writes a request's bytes once to the connection, or refuses it with nothing written
  -- and the client as it was.
  pub send_request-Sends :
      (req : SignalRequest) (c : Client ws) → Sends req c (send_request ws req c)
  unfolding send_request
  send_request-Sends req c = send_on-Sends req c c.conn refl
