-- ===== src/Ice/Gather/Balance.antt =====
-- What the gathering of relay candidates leaves open, whatever fails in it.
use ziti_livekit_example.Prelude.{ℕ, ◌≡◌, refl, List, [], ◌∷◌, length, arith, All}
use ziti_livekit_example.Outcome.{
  Result, ok, err, panic, Action, pure, attempt, settle, continue, ◌>>=◌,
}
use ziti_livekit_example.Outcome.Triples.{Triple, Triple-bind, Triple-weaken, Triple-same}
use ziti_livekit_example.Outcome.Keeps.{Keeps, Keeps-bind}
use ziti_livekit_example.Openziti.Platform.{Platform}
use ziti_livekit_example.Stdnet.{System}
use ziti_livekit_example.Ice.Types.{Uri, Libs, Agent, Config}
use ziti_livekit_example.Ice.Relay.Holdings.{Has, Settled, Has-Settled}
use ziti_livekit_example.Ice.Gather.{relay_url, go, skip, stop, start, Use, step, gather_relay}
use ziti_livekit_example.Ice.Gather.Clients.{Triple-relay_on}
use ziti_livekit_example.Ice.Gather.Connections.{IsWithoutDtls, Connects-local_conn}

-- From one agent to the next, as many connections, clients and relayed connections more are open as there
-- are candidates more.
abbrev pub Balanced : {p : Platform} {lib : Libs p} → Agent lib → Agent lib → Type 0
Balanced a b = Settled a.tally.conns a.tally.clients a.tally.relays (length a.local_candidates) b

Balanced-same : {p : Platform} {lib : Libs p} (a : Agent lib) → Balanced a a
Balanced-same a = record { conns = refl; clients = refl; relays = refl }

Balanced-chain :
    {p : Platform} {lib : Libs p} (a b c : Agent lib) → Balanced a b → Balanced b c → Balanced a c
Balanced-chain a b c h k = record {
  conns = omega (arith, h.conns, k.conns);
  clients = omega (arith, h.clients, k.clients);
  relays = omega (arith, h.relays, k.relays);
}

module _ {p : Platform} (sys : System p) (lib : Libs p) where
  Triple-relay_url :
      {n m r l : ℕ} (cfg : Config lib) (url : Uri)
      → IsWithoutDtls url
      → Triple
          (Has n m r l)
          (relay_url sys lib cfg url)
          (λ u. Settled n m r l)
          (Settled n m r l)
          (Settled n m r l)
  unfolding relay_url
  Triple-relay_url cfg url h =
      Triple-bind _ _
        (Triple-weaken _ (λ x s q. q) (λ s. Has-Settled) (λ s. Has-Settled)
          (Connects-local_conn sys lib cfg url url.proto url.scheme h))
        λ x. Triple-relay_on sys lib url x

  relay_url-Balanced :
      (cfg : Config lib) (url : Uri) (a : Agent lib)
      → IsWithoutDtls url
      → Balanced a (relay_url sys lib cfg url a).1
  relay_url-Balanced cfg url a h =
      Triple-same _ (Triple-relay_url cfg url h) a
        (record { conns = refl; clients = refl; relays = refl; candidates = refl })

  settled_state :
      (r : Result (Unit {0})) (a : Agent lib)
      → (continue {A = Result (Unit {0})} {B = Unit {0}}
          (settle r a).0
          (λ x. pure tt)
          (settle r a).1).1
        ≡ a
  unfolding pure
  settled_state (ok x) a = refl
  settled_state (err e) a = refl
  settled_state (panic t) a = refl

  Keeps-go : (m : Action (Agent lib) (Unit {0})) → Keeps Balanced m → Keeps Balanced (go m)
  unfolding go attempt ◌>>=◌
  Keeps-go m h = record { at = λ a. rw (settled_state (m a).0 (m a).1) (h.at a) }

  Keeps-step :
      (u : Use) (m rest : Action (Agent lib) (Unit {0}))
      → Keeps Balanced m
      → Keeps Balanced rest
      → Keeps Balanced (step u m rest)
  unfolding pure
  Keeps-step skip m rest h k = k
  Keeps-step stop m rest h k = record { at = λ a. Balanced-same a }
  Keeps-step start m rest h k = Keeps-bind Balanced-same Balanced-chain _ _ (Keeps-go m h) (λ u. k)

  Keeps-gather_relay :
      (cfg : Config lib) (urls : List Uri)
      → All IsWithoutDtls urls
      → Keeps Balanced (gather_relay sys lib cfg urls)
  unfolding gather_relay pure
  Keeps-gather_relay cfg [] h = record { at = λ a. Balanced-same a }
  Keeps-gather_relay cfg (url ∷ urls) (h, hs) =
      Keeps-step _ _ _ (record { at = λ a. relay_url-Balanced cfg url a h })
        (Keeps-gather_relay cfg urls hs)

  -- Whatever fails while the relay candidates of some URLs are gathered, of which none is for DTLS, as
  -- many connections to TURN servers, clients and relayed connections more are open in the end
  -- as there are candidates more.
  pub gather_relay-Balanced :
      (cfg : Config lib) (urls : List Uri) (a : Agent lib)
      → All IsWithoutDtls urls
      → Balanced a (gather_relay sys lib cfg urls a).1
  gather_relay-Balanced cfg urls a h = (Keeps-gather_relay cfg urls h).at a
