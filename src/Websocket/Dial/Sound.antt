-- ===== src/Websocket/Dial/Sound.antt =====
-- The dial functions that a dial chooses among, and those that it makes of them.
use mathlib.Core.Path.{subst}
use ziti_livekit_example.Outcome.Inversion.{ok-eq-ok}
use ziti_livekit_example.Prelude.{
  ℕ, String, ◌≡◌, refl, Bool, true, false, Option, none, some, eqb, ◌==◌, Bool-cases, inl, inr,
}
use ziti_livekit_example.Outcome.{Result, ok, err, panic, Action, pure, lift, continue, ◌>>=◌}
use ziti_livekit_example.Openziti.Platform.{Platform}
use ziti_livekit_example.Openziti.Setup.{transport_dial}
use ziti_livekit_example.Websocket.Types.{
  Url, Request, Dialing, NetDialer, Wire, Dialer, in_world, opened,
}
use ziti_livekit_example.Websocket.Dialers.{
  dialer_of_transport, ziti_dialer, choose_plain, choose_tls, choose_dialer, deadline_dialer,
  limit_dialer, through, proxy_dialer,
}
use ziti_livekit_example.Websocket.Dial.Levels.{
  after, Opens, Level-pure, Level-on_net, Level-bind, Opens-used,
}
use ziti_livekit_example.Websocket.Dial.Upgrades.{Uses-closing}

module _ {p : Platform} (wire : Wire p) where
  -- A dial function that opens one connection if it succeeds, and leaves none behind if it does not.
  pub record IsDialer (dial : NetDialer p) : Type 0 where
    pub opens : (network address : String) → Opens (dial network address)

  pub IsDialer-ziti : IsDialer (λ network address. in_world (transport_dial p network address))
  unfolding in_world
  IsDialer-ziti = record {
    opens = λ network address. record { at = λ s. world_lem _ s.open_conns };
  }
    where
      world_lem : (r : Result p.Conn) (n : ℕ) → opened r n ≡ after r n
      world_lem (ok c) n = refl
      world_lem (err e) n = refl
      world_lem (panic t) n = refl

  pub IsDialer-deadline :
      (dial : NetDialer p) → IsDialer dial → IsDialer (deadline_dialer wire dial)
  unfolding deadline_dialer
  IsDialer-deadline dial h = record {
    opens = λ network address. Opens-used _ _ (h.opens network address) (λ conn.
        Uses-closing wire conn _
          (Level-bind _ _ (Level-on_net (wire.set_deadline conn)) (λ u. Level-pure conn)));
  }

  pub IsDialer-limit :
      (timeout : ℕ) (dial : NetDialer p) → IsDialer dial → IsDialer (limit_dialer wire timeout dial)
  unfolding limit_dialer
  IsDialer-limit timeout dial h = elim (Bool-cases (eqb timeout 0)) [
    | inl t ↦ rw t h
    | inr f ↦ rw f (IsDialer-deadline dial h)
  ]

  -- The functions that a dialer was given, and those that a proxy makes, are such dial functions.
  pub record IsSound (d : Dialer p wire) : Type 0 where
    pub net_dial : (f : NetDialer p) → d.net_dial ≡ some f → IsDialer f
    pub net_dial_context : (f : NetDialer p) → d.net_dial_context ≡ some f → IsDialer f
    pub net_dial_tls_context : (f : NetDialer p) → d.net_dial_tls_context ≡ some f → IsDialer f
    pub proxied :
        (url : Url) (f g : NetDialer p) → IsDialer f → wire.proxy_from_url url f ≡ ok g → IsDialer g

  pub dialer_of_transport-IsDialer :
      (o : Option ℕ) {f : NetDialer p} → dialer_of_transport wire o ≡ ok f → IsDialer f
  unfolding dialer_of_transport
  dialer_of_transport-IsDialer none e = cc
  dialer_of_transport-IsDialer (some n) e = subst IsDialer (ok-eq-ok e) IsDialer-ziti

  pub choose_plain-IsDialer :
      (a b : Option (NetDialer p)) (s : Dialing p) (f : NetDialer p)
      → ((g : NetDialer p) → a ≡ some g → IsDialer g)
      → ((g : NetDialer p) → b ≡ some g → IsDialer g)
      → (choose_plain wire a b s).0 ≡ ok f
      → IsDialer f
  unfolding choose_plain ziti_dialer ◌>>=◌
  choose_plain-IsDialer (some g) b s f h k e = subst IsDialer (ok-eq-ok e) (h g refl)
  choose_plain-IsDialer none (some g) s f h k e = subst IsDialer (ok-eq-ok e) (k g refl)
  choose_plain-IsDialer none none s f h k e = dialer_of_transport-IsDialer s.world.websocket e

  pub choose_tls-IsDialer :
      (b : Bool) (o : Option (NetDialer p)) (m : Action (Dialing p) (NetDialer p)) (s : Dialing p)
      (f : NetDialer p)
      → ((g : NetDialer p) → o ≡ some g → IsDialer g)
      → ((m s).0 ≡ ok f → IsDialer f)
      → (choose_tls wire b o m s).0 ≡ ok f
      → IsDialer f
  unfolding choose_tls pure
  choose_tls-IsDialer true (some g) m s f h k e = subst IsDialer (ok-eq-ok e) (h g refl)
  choose_tls-IsDialer true none m s f h k e = k e
  choose_tls-IsDialer false o m s f h k e = k e

  pub choose_dialer-IsDialer :
      (d : Dialer p wire) (u : Url) (s : Dialing p) (f : NetDialer p)
      → IsSound d
      → (choose_dialer wire d u s).0 ≡ ok f
      → IsDialer f
  unfolding choose_dialer
  choose_dialer-IsDialer d u s f h e =
      choose_tls-IsDialer (u.scheme == "https") d.net_dial_tls_context _ s f h.net_dial_tls_context
        (choose_plain-IsDialer d.net_dial_context d.net_dial s f h.net_dial_context h.net_dial) e

  pub proxy_dialer-IsDialer :
      (d : Dialer p wire) (o : Option (Request → Result (Option Url))) (req : Request)
      (f g : NetDialer p) (s : Dialing p)
      → IsSound d
      → IsDialer f
      → (proxy_dialer wire o req f s).0 ≡ ok g
      → IsDialer g
  unfolding proxy_dialer ◌>>=◌
  proxy_dialer-IsDialer d none req f g s h k e = subst IsDialer (ok-eq-ok e) k
  proxy_dialer-IsDialer d (some proxy) req f g s h k e = through_lem (proxy req) e
    where
      through_lem :
          (r : Result (Option Url))
          → (continue r (λ url. lift (through wire url f)) s).0 ≡ ok g
          → IsDialer g
      through_lem (ok none) e = subst IsDialer (ok-eq-ok e) k
      through_lem (ok (some url)) e = h.proxied url f g k e
      through_lem (err x) e = cc
      through_lem (panic t) e = cc
