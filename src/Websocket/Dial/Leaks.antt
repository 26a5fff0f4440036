-- ===== src/Websocket/Dial/Leaks.antt =====
-- The net connections that a dial leaves open.

use ziti_livekit_example.Prelude.{String, refl, Bool, true, false, Option, none, some}
use ziti_livekit_example.Outcome.{Result, Action}
use ziti_livekit_example.Openziti.Platform.{Platform}
use ziti_livekit_example.Websocket.Types.{Url, Header, Request, Dialing, NetDialer, Wire, Dialer}
use ziti_livekit_example.Websocket.Dialers.{
  ziti_dialer, choose_plain, choose_tls, choose_dialer, proxy_dialer,
}
use ziti_livekit_example.Websocket.Dial.{dial_context}
use ziti_livekit_example.Websocket.Dial.Levels.{
  Level, Opens, Level-pure, Level-lift, Level-on_net, Opens-behind, Opens-used, level_rules,
}
use ziti_livekit_example.Websocket.Dial.Upgrades.{Uses-secure_and_upgrade}
use ziti_livekit_example.Websocket.Dial.Sound.{
  IsSound, IsDialer-limit, choose_dialer-IsDialer, proxy_dialer-IsDialer,
}

module _ {p : Platform} (wire : Wire p) where
  Level-still : {A : Type 0} (f : Dialing p → Result A) → Level {p = p} (λ s. (f s, s))
  Level-still f = record { at = λ s. refl }

  Level-choose_tls :
      (b : Bool) (o : Option (NetDialer p)) (m : Action (Dialing p) (NetDialer p))
      → Level m
      → Level (choose_tls wire b o m)
  unfolding choose_tls
  Level-choose_tls true (some f) m h = Level-pure f
  Level-choose_tls true none m h = h
  Level-choose_tls false o m h = h

  Level-choose_plain : (a b : Option (NetDialer p)) → Level (choose_plain wire a b)
  unfolding choose_plain ziti_dialer
  Level-choose_plain (some f) b = Level-pure f
  Level-choose_plain none (some f) = Level-pure f
  Level-choose_plain none none = Level-still _

  Level-choose_dialer : (d : Dialer p wire) (u : Url) → Level (choose_dialer wire d u)
  unfolding choose_dialer
  Level-choose_dialer d u =
      Level-choose_tls _ _ _ (Level-choose_plain d.net_dial_context d.net_dial)

  Level-proxy_dialer :
      (o : Option (Request → Result (Option Url))) (req : Request) (f : NetDialer p)
      → Level (proxy_dialer wire o req f)
  unfolding proxy_dialer
  Level-proxy_dialer none req f = Level-pure f
  Level-proxy_dialer (some proxy) req f = search level_rules

  -- After a dial that succeeds one more net connection is open than before, and after one that fails as
  -- many as before, whatever goes wrong: this holds if it holds of the dial functions that the
  -- dialer was given and of those that proxyFromURL makes over such functions.
  pub dial_context-Opens :
      (d : Dialer p wire) (url_str : String) (header : Header)
      → IsSound wire d
      → Opens (dial_context wire d url_str header)
  unfolding dial_context
  dial_context-Opens d url_str header h =
      Opens-behind _ _ (Level-on_net wire.generate_challenge_key) λ key s0 e0.
        Opens-behind _ _ (Level-lift (wire.parse_url url_str)) λ u s1 e1.
          Opens-behind _ _ (Level-still _) λ req s2 e2.
            Opens-behind _ _ (Level-choose_dialer d req.url) λ chosen s3 e3.
              Opens-behind _ _ (Level-proxy_dialer d.proxy req _) λ dial s4 e4.
                Opens-used _ _
                  ((proxy_dialer-IsDialer wire d d.proxy req _ dial s4 h
                      (IsDialer-limit wire d.handshake_timeout chosen
                        (choose_dialer-IsDialer wire d req.url s3 chosen h e3))
                      e4).opens
                    "tcp" _)
                  (Uses-secure_and_upgrade wire d req key)
