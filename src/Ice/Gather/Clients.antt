-- ===== src/Ice/Gather/Clients.antt =====
-- What the goroutine of a URL leaves open, once it has its connection, whatever fails in it.
use ziti_livekit_example.Prelude.{ℕ, ◌+◌, arith, ◌⊎◌}
use ziti_livekit_example.Outcome.{Error}
use ziti_livekit_example.Outcome.Triples.{Triple, Triple-bind, Triple-lift}
use ziti_livekit_example.Openziti.Platform.{Platform}
use ziti_livekit_example.Stdnet.{System}
use ziti_livekit_example.Ice.Types.{Uri, Libs, Agent}
use ziti_livekit_example.Ice.Relay.{on_lib, opening, tallied}
use ziti_livekit_example.Ice.Gather.{relay_config, Local, give_up, relay_on, one_client, one_relay}
use ziti_livekit_example.Ice.Relay.Holdings.{
  Has, Settled, Has-Settled, Has-close_conn, Has-close_client, Has-close_relay, Has-close_candidate,
}
use ziti_livekit_example.Ice.Relay.Calls.{
  Triple-on_err, Triple-on_lib, Triple-opening, Triple-add_candidate, new_candidate_relay-calm,
}

module _ {p : Platform} (sys : System p) (lib : Libs p) where
  Has-give_up :
      {n m r l : ℕ} (x : Local sys lib) (c : lib.Client) (a : Agent lib)
      → Has (n + 1) (m + 1) r l a
      → Has n m r l (give_up sys lib x c a)
  unfolding give_up
  Has-give_up x c a h = Has-close_conn sys lib _ _ (Has-close_client sys lib _ a h)

  opens_client :
      {A : Type 0} {n m r l : ℕ} {X : Agent lib → Type 0} (f : p.Net → (Error ⊎ A) × p.Net)
      → Triple
          (Has n m r l)
          (opening sys lib one_client (on_lib sys lib f))
          (λ x. Has n (m + 1) r l)
          (Has n m r l)
          X
  unfolding tallied
  opens_client f = Triple-opening sys lib _ _ (Triple-on_lib sys lib f) λ x a h. record {
    conns = h.conns;
    clients = omega (arith, h.clients);
    relays = h.relays;
    candidates = h.candidates;
  }

  opens_relay :
      {A : Type 0} {n m r l : ℕ} {X : Agent lib → Type 0} (f : p.Net → (Error ⊎ A) × p.Net)
      → Triple
          (Has n m r l)
          (opening sys lib one_relay (on_lib sys lib f))
          (λ x. Has n m (r + 1) l)
          (Has n m r l)
          X
  unfolding tallied
  opens_relay f = Triple-opening sys lib _ _ (Triple-on_lib sys lib f) λ x a h. record {
    conns = h.conns;
    clients = h.clients;
    relays = omega (arith, h.relays);
    candidates = h.candidates;
  }

  -- On a connection that is open, the rest of a goroutine leaves open only what a new candidate uses.
  pub Triple-relay_on :
      {n m r l : ℕ} {X : Agent lib → Type 0} (url : Uri) (x : Local sys lib)
      → Triple
          (Has (n + 1) m r l)
          (relay_on sys lib url x)
          (λ u. Settled n m r l)
          (Settled n m r l)
          X
  unfolding relay_on
  Triple-relay_on url x =
      Triple-bind _ _
        (Triple-on_err sys lib _ _ (opens_client _)
          λ b h. Has-Settled (Has-close_conn sys lib x.loc_conn b h))
        λ client.
          Triple-bind _ _
            (Triple-on_err sys lib _ _ (Triple-on_lib sys lib (lib.listen client))
              λ b h. Has-Settled (Has-give_up x client b h))
            λ u.
              Triple-bind _ _
                (Triple-on_err sys lib _ _ (opens_relay _)
                  λ b h. Has-Settled (Has-give_up x client b h))
                λ relay_conn.
                  Triple-bind _ _
                    (Triple-on_err sys lib _ _
                      (Triple-lift _ (
                        new_candidate_relay-calm sys lib
                          (relay_config sys lib x client (lib.relay_addr relay_conn))))
                      λ b h.
                        Has-Settled
                          (Has-give_up x client _ (Has-close_relay sys lib relay_conn b h)))
                    λ candidate.
                      Triple-on_err sys lib _ _ (Triple-add_candidate sys lib candidate relay_conn)
                        λ b h. Has-Settled (
                          Has-close_candidate sys lib candidate _
                            (Has-close_relay sys lib relay_conn b h))
