-- ===== src/Ice/Gather/Connections.antt =====
-- How a connection to a TURN server is made: one more is open, or none.
use ziti_livekit_example.Prelude.{
  ℕ, ◌+◌, ◌≡◌, refl, String, Bool, inl, inr, Option, none, some, arith, ◌⊎◌, ◌≢◌,
}
use ziti_livekit_example.Outcome.{Error, panic, Action, fail}
use ziti_livekit_example.Outcome.Triples.{Triple, Triple-bind, Triple-lift, Triple-pure, Meets-any}
use ziti_livekit_example.Openziti.Platform.{Platform}
use ziti_livekit_example.Stdnet.{System, Net}
use ziti_livekit_example.Ice.Types.{
  Uri, Scheme, stun, stuns, turn, turns, unknown_scheme, Proto, udp, tcp, unknown_proto, stun_conn,
  Libs, Agent, Config,
}
use ziti_livekit_example.Ice.Relay.{result_of, on_lib, opening, tallied}
use ziti_livekit_example.Ice.Relay.Holdings.{Has, Has-close_conn}
use ziti_livekit_example.Ice.Relay.Calls.{Triple-on_err, Triple-on_lib, Triple-opening}
use ziti_livekit_example.Ice.Gather.{
  Local, one_conn, in_net, listen_udp, tcp_addr, dial_tcp, over_tcp, over_tls, over_proxy,
  local_conn,
}

-- A URL whose connection is not made by DTLS.
abbrev pub IsWithoutDtls : Uri → Type 0
IsWithoutDtls url = ¬ ((url.proto ≡ udp) × (url.scheme ≡ turns))

pub result_of-calm : {A : Type 0} (x : Error ⊎ A) (t : String) → result_of x ≢ panic t
unfolding result_of
result_of-calm (inl e) t h = cc
result_of-calm (inr a) t h = cc

module _ {p : Platform} (sys : System p) (lib : Libs p) where
  -- A call that opens a connection to a TURN server and leaves nothing else behind.
  abbrev pub Connects : {A : Type 0} → ℕ → ℕ → ℕ → ℕ → Action (Agent lib) A → Type 0
  Connects n m r l act =
      Triple (Has n m r l) act (λ x. Has (n + 1) m r l) (Has n m r l) (Has n m r l)

  module _ {n m r l : ℕ} where
    Connects-opening :
        {A : Type 0} (m' : Action (Agent lib) A)
        → Triple (Has n m r l) m' (λ x. Has n m r l) (Has n m r l) (Has n m r l)
        → Connects n m r l (opening sys lib one_conn m')
    unfolding tallied
    Connects-opening m' h = Triple-opening sys lib _ _ h λ x a h'. record {
      conns = omega (arith, h'.conns);
      clients = h'.clients;
      relays = h'.relays;
      candidates = h'.candidates;
    }

    Connects-on_lib :
        {A : Type 0} (f : p.Net → (Error ⊎ A) × p.Net)
        → Connects n m r l (opening sys lib one_conn (on_lib sys lib f))
    Connects-on_lib f = Connects-opening _ (Triple-on_lib sys lib f)

    Has-in_net :
        {A : Type 0} (act : Action (Net p) A)
        → Triple (Has n m r l) (in_net sys lib act) (λ x. Has n m r l) (Has n m r l) (Has n m r l)
    unfolding in_net
    Has-in_net act = record {
      at = λ a h. Meets-any _ (act a.net).0 _ (record {
        conns = h.conns;
        clients = h.clients;
        relays = h.relays;
        candidates = h.candidates;
      });
    }

    Connects-listen_udp : (url : Uri) → Connects n m r l (listen_udp sys lib url)
    unfolding listen_udp
    Connects-listen_udp url =
        Triple-bind _ _ (Connects-opening _ (Has-in_net _)) (λ z. Triple-pure _ (λ s h. h))

    Connects-dial_tcp : (url : Uri) → Connects n m r l (dial_tcp sys lib url)
    unfolding dial_tcp tcp_addr
    Connects-dial_tcp url =
        Triple-bind _ _ (Triple-lift _ (result_of-calm _)) (λ addr. Connects-on_lib _)

    Connects-over_tcp : (url : Uri) → Connects n m r l (over_tcp sys lib url)
    unfolding over_tcp
    Connects-over_tcp url =
        Triple-bind _ _ (Connects-dial_tcp url) (λ conn. Triple-pure _ (λ s h. h))

    Connects-over_tls : (b : Bool) (url : Uri) → Connects n m r l (over_tls sys lib b url)
    unfolding over_tls
    Connects-over_tls b url = Triple-bind _ _ (Connects-dial_tcp url) λ conn.
        Triple-bind _ _
          (Triple-on_err sys lib _ _ (Triple-on_lib sys lib _)
            λ a h. Has-close_conn sys lib (stun_conn conn) a h)
          (λ u. Triple-pure _ (λ s h. h))

    Connects-over_proxy :
        (o : Option (String → String → p.Net → (Error ⊎ lib.Conn) × p.Net)) (t : String) (url : Uri)
        (direct : Action (Agent lib) (Local sys lib))
        → Connects n m r l direct
        → Connects n m r l (over_proxy sys lib o t url direct)
    unfolding over_proxy
    Connects-over_proxy none t url direct h = h
    Connects-over_proxy (some dial) t url direct h =
        Triple-bind _ _ (Connects-on_lib _) (λ conn. Triple-pure _ (λ s k. k))

    Connects-fail : {A : Type 0} (e : Error) → Connects {A = A} n m r l (fail e)
    unfolding fail
    Connects-fail e = record { at = λ a h. h }

    -- All the ways to connect but DTLS.
    pub Connects-local_conn :
        (cfg : Config lib) (url : Uri) (t : Proto) (s : Scheme)
        → ¬ ((t ≡ udp) × (s ≡ turns))
        → Connects n m r l (local_conn sys lib cfg url t s)
    unfolding local_conn
    Connects-local_conn cfg url udp turn h = Connects-listen_udp url
    Connects-local_conn cfg url tcp turn h = Connects-over_proxy _ _ url _ (Connects-over_tcp url)
    Connects-local_conn cfg url udp turns h = absurd (h (refl, refl))
    Connects-local_conn cfg url tcp turns h =
        Connects-over_proxy _ _ url _ (Connects-over_tls _ url)
    Connects-local_conn cfg url udp stun h = Connects-fail _
    Connects-local_conn cfg url udp stuns h = Connects-fail _
    Connects-local_conn cfg url udp unknown_scheme h = Connects-fail _
    Connects-local_conn cfg url tcp stun h = Connects-fail _
    Connects-local_conn cfg url tcp stuns h = Connects-fail _
    Connects-local_conn cfg url tcp unknown_scheme h = Connects-fail _
    Connects-local_conn cfg url unknown_proto s h = Connects-fail _
