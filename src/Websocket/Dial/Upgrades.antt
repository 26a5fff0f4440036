-- ===== src/Websocket/Dial/Upgrades.antt =====
-- What is done on a dialled connection: it is closed again unless it is returned.

use ziti_livekit_example.Prelude.{
  ℕ, ◌+◌, String, ◌≡◌, refl, ◌∙◌, Bool, true, false, Option, none, some, arith, if◌then◌else◌,
}
use ziti_livekit_example.Outcome.{Result, ok, err, panic, Action, modify}
use ziti_livekit_example.Openziti.Platform.{Platform}
use ziti_livekit_example.Websocket.Types.{Url, Request, Response, TlsConfig, Dialing, Wire, Dialer}
use ziti_livekit_example.Websocket.Dialers.{close_net_conn, closing, closed_unless_ok}
use ziti_livekit_example.Websocket.Upgrade.{
  tls_config, keep_cookies, do_handshake, accept_response, upgrade,
}
use ziti_livekit_example.Websocket.Url.{host_port_no_port}
use ziti_livekit_example.Websocket.Dial.{secure_and_upgrade}
use ziti_livekit_example.Websocket.Dial.Levels.{Level, after, Uses, Level-bind, level_rules}

module _ {p : Platform} (wire : Wire p) where
  pub Uses-closing :
      {A : Type 0} (conn : p.Conn) (m : Action (Dialing p) A) → Level m → Uses (closing wire conn m)
  unfolding closing close_net_conn
  Uses-closing conn m h = record { at = λ s n e. closed_lem (m s).0 (m s).1 n (h.at s ∙ e) }
    where
      closed_lem :
          {A : Type 0} (r : Result A) (s : Dialing p) (n : ℕ)
          → s.open_conns ≡ n + 1
          → (closed_unless_ok wire r conn s).open_conns ≡ after r n
      closed_lem (ok a) s n e = e
      closed_lem (err x) s n e = omega arith
      closed_lem (panic t) s n e = omega arith

  pub Level-keep_cookies :
      (jar : Option wire.Jar) (u : Url) (resp : Response)
      → Level (modify (keep_cookies wire jar u resp))
  unfolding modify keep_cookies
  Level-keep_cookies none u resp = record { at = λ s. refl }
  Level-keep_cookies (some j) u resp = record { at = λ s. refl }

  pub Level-response :
      (resp : Response) → Level {p = p} (modify (λ s. record s { response = some resp }))
  unfolding modify
  Level-response resp = record { at = λ s. refl }

  pub Level-do_handshake : (conn : p.Conn) (cfg : TlsConfig) → Level (do_handshake wire conn cfg)
  unfolding do_handshake
  Level-do_handshake conn cfg = search level_rules

  pub Level-accept_response :
      (key : String) (conn : p.Conn) (resp : Response) → Level (accept_response wire key conn resp)
  unfolding accept_response
  Level-accept_response key conn resp = search (level_rules, Level-response) depth 8

  pub Level-upgrade :
      (d : Dialer p wire) (req : Request) (key : String) (conn : p.Conn)
      → Level (upgrade wire d req key conn)
  unfolding upgrade
  Level-upgrade d req key conn =
      search (level_rules, Level-keep_cookies, Level-accept_response) depth 8

  pub Uses-if :
      {A : Type 0} (b : Bool) (m n : Action (Dialing p) A)
      → Uses m
      → Uses n
      → Uses (if b then m else n)
  Uses-if true m n h k = h
  Uses-if false m n h k = k

  pub Uses-secure_and_upgrade :
      (d : Dialer p wire) (req : Request) (key : String) (conn : p.Conn)
      → Uses (secure_and_upgrade wire d req key conn)
  unfolding secure_and_upgrade
  Uses-secure_and_upgrade d req key conn =
      Uses-if _ _ _
        (Uses-closing _ _ (
          Level-bind _ _
            (Level-do_handshake _ (tls_config d.tls_client_config (host_port_no_port req.url).1))
            (λ u. Level-upgrade d req key _)))
        (Uses-closing conn _ (Level-upgrade d req key conn))
