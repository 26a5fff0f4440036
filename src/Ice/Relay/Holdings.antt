-- ===== src/Ice/Relay/Holdings.antt =====
-- How much an agent has open, and what closing something changes of it.
use ziti_livekit_example.Prelude.{
  ℕ, ◌+◌, ◌≡◌, inl, inr, Bool-cases, some, [], ◌∷◌, length, length-append, arith, ◌⊎◌,
}
use ziti_livekit_example.Outcome.{Error}
use ziti_livekit_example.Openziti.Platform.{Platform}
use ziti_livekit_example.Stdnet.{System}
use ziti_livekit_example.Ice.Types.{
  LocConn, ziti, stun_conn, fake_conn, Libs, CandidateRelay, Agent,
}
use ziti_livekit_example.Ice.Relay.{
  on_lib, close_client, close_relay, close_loc, close_conn_and_log, close_candidate,
  append_candidate, has_equal, tallied, on_net,
}

module _ {p : Platform} {lib : Libs p} where
  -- An agent has so much open, and so many candidates.
  pub record Has (n m r l : ℕ) (a : Agent lib) : Type 0 where
    pub conns : a.tally.conns ≡ n
    pub clients : a.tally.clients ≡ m
    pub relays : a.tally.relays ≡ r
    pub candidates : length a.local_candidates ≡ l

  -- Beyond what was open before, an agent has open what its candidates use.
  pub record Settled (n m r l : ℕ) (a : Agent lib) : Type 0 where
    pub conns : a.tally.conns + l ≡ n + length a.local_candidates
    pub clients : a.tally.clients + l ≡ m + length a.local_candidates
    pub relays : a.tally.relays + l ≡ r + length a.local_candidates

  pub Has-Settled : {n m r l : ℕ} {a : Agent lib} → Has n m r l a → Settled n m r l a
  Has-Settled h = record {
    conns = omega (arith, h.conns, h.candidates);
    clients = omega (arith, h.clients, h.candidates);
    relays = omega (arith, h.relays, h.candidates);
  }

module _ {p : Platform} (sys : System p) (lib : Libs p) where
  pub Has-on_lib :
      {A : Type 0} {n m r l : ℕ} (f : p.Net → (Error ⊎ A) × p.Net) (a : Agent lib)
      → Has n m r l a
      → Has n m r l (on_lib sys lib f a).1
  unfolding on_lib on_net
  Has-on_lib f a h = record {
    conns = h.conns;
    clients = h.clients;
    relays = h.relays;
    candidates = h.candidates;
  }

  pub Has-close_loc :
      {n m r l : ℕ} (c : LocConn p lib.Conn) (a : Agent lib)
      → Has n m r l a
      → Has n m r l (close_loc sys lib c a)
  unfolding close_loc on_net
  Has-close_loc (ziti z) a h = record {
    conns = h.conns;
    clients = h.clients;
    relays = h.relays;
    candidates = h.candidates;
  }
  Has-close_loc (stun_conn z) a h = record {
    conns = h.conns;
    clients = h.clients;
    relays = h.relays;
    candidates = h.candidates;
  }
  Has-close_loc (fake_conn z) a h = record {
    conns = h.conns;
    clients = h.clients;
    relays = h.relays;
    candidates = h.candidates;
  }

  pub Has-close_conn :
      {n m r l : ℕ} (c : LocConn p lib.Conn) (a : Agent lib)
      → Has (n + 1) m r l a
      → Has n m r l (close_conn_and_log sys lib c a)
  unfolding close_conn_and_log tallied
  Has-close_conn c a h =
      let k = Has-close_loc c a h in
      record {
        conns = omega (arith, k.conns);
        clients = k.clients;
        relays = k.relays;
        candidates = k.candidates;
      }

  pub Has-close_client :
      {n m r l : ℕ} (c : lib.Client) (a : Agent lib)
      → Has n (m + 1) r l a
      → Has n m r l (close_client sys lib c a)
  unfolding close_client tallied on_net
  Has-close_client c a h = record {
    conns = h.conns;
    clients = omega (arith, h.clients);
    relays = h.relays;
    candidates = h.candidates;
  }

  pub Has-close_relay :
      {n m r l : ℕ} (c : lib.RelayConn) (a : Agent lib)
      → Has n m (r + 1) l a
      → Has n m r l (close_relay sys lib c a)
  unfolding close_relay tallied on_net
  Has-close_relay c a h = record {
    conns = h.conns;
    clients = h.clients;
    relays = omega (arith, h.relays);
    candidates = h.candidates;
  }

  pub Has-close_candidate :
      {n m r l : ℕ} (c : CandidateRelay lib) (a : Agent lib)
      → Has (n + 1) (m + 1) r l a
      → Has n m r l (close_candidate sys lib c a)
  unfolding close_candidate
  Has-close_candidate c a h = Has-close_conn _ _ (Has-close_client _ a h)

  pub Settled-append :
      {n m r l : ℕ} (c : CandidateRelay lib) (k : lib.RelayConn) (a : Agent lib)
      → Has (n + 1) (m + 1) (r + 1) l a
      → Settled n m r l (append_candidate sys lib c k a)
  unfolding append_candidate
  Settled-append c k a h = elim (Bool-cases (has_equal sys lib c a.local_candidates)) [
    | inl t ↦ rw t (Has-Settled (Has-close_relay k _ (Has-close_candidate c a h)))
    | inr f ↦ rw f (record {
      conns = omega (
        arith,
        h.conns,
        h.candidates,
        length-append a.local_candidates (record c { conn = some k } ∷ []),
      );
      clients = omega (
        arith,
        h.clients,
        h.candidates,
        length-append a.local_candidates (record c { conn = some k } ∷ []),
      );
      relays = omega (
        arith,
        h.relays,
        h.candidates,
        length-append a.local_candidates (record c { conn = some k } ∷ []),
      );
    })
  ]
