-- ===== src/Ice/Relay/Distinct.antt =====
-- No two of an agent's candidates are equal.

use ziti_livekit_example.Prelude.{
  ◌≡◌, refl, true, false, eq_refl, Bool-cases, inl, inr, Option, none, some, List, [], ◌∷◌, ◌++◌,
  All, arith,
}
use ziti_livekit_example.Outcome.{Error}
use ziti_livekit_example.Openziti.Platform.{Platform}
use ziti_livekit_example.Stdnet.{System}
use ziti_livekit_example.Ice.Types.{
  NetworkType, udp4, udp6, tcp4, tcp6, Libs, LocConn, ziti, stun_conn, fake_conn, CandidateRelay,
  Agent,
}
use ziti_livekit_example.Ice.Relay.{
  same_network_type, equal, has_equal, append_candidate, close_candidate, close_relay, close_client,
  close_conn_and_log, close_loc, on_net, tallied, admit, run, add_candidate,
}

same_network_type_refl : (n : NetworkType) → same_network_type n n ≡ true
unfolding same_network_type
same_network_type_refl udp4 = refl
same_network_type_refl udp6 = refl
same_network_type_refl tcp4 = refl
same_network_type_refl tcp6 = refl

module _ {p : Platform} (sys : System p) (lib : Libs p) where
  -- Two candidates of one network type, address, port and related address.
  pub record Same (c d : CandidateRelay lib) : Type 0 where
    pub network_type : c.network_type ≡ d.network_type
    pub address : c.address ≡ d.address
    pub port : c.port ≡ d.port
    pub related_address : c.related_address ≡ d.related_address

  -- Each candidate differs from all that were added after it.
  abbrev pub AreDistinct : List (CandidateRelay lib) → Type 0
  AreDistinct [] = Unit
  AreDistinct (c ∷ cs) = All (λ d. ¬ Same c d) cs × AreDistinct cs

  equal_refl : (c : CandidateRelay lib) → equal sys lib c c ≡ true
  unfolding equal
  equal_refl c =
      ground (
        arith,
        same_network_type_refl c.network_type,
        eq_refl c.address,
        eq_refl c.related_address.0,
      )

  -- Candidates that the code finds unequal are not the same.
  unequal-Same : (c d : CandidateRelay lib) → equal sys lib c d ≡ false → ¬ Same c d
  unfolding equal
  unequal-Same c d h s =
      let same : equal sys lib c d ≡ equal sys lib c c =
        rw (s.network_type, s.address, s.port, s.related_address) refl in
      cc (h, same, equal_refl c)

  All-snoc :
      (c d : CandidateRelay lib) (cs : List (CandidateRelay lib))
      → All (λ x. ¬ Same c x) cs
      → ¬ Same c d
      → All (λ x. ¬ Same c x) (cs ++ d ∷ [])
  All-snoc c d [] h k = (k, tt)
  All-snoc c d (x ∷ xs) (h, hs) k = (h, All-snoc c d xs hs k)

  has_equal-eq-false :
      (c d : CandidateRelay lib) (cs : List (CandidateRelay lib))
      → has_equal sys lib c (d ∷ cs) ≡ false
      → (equal sys lib d c ≡ false) × (has_equal sys lib c cs ≡ false)
  unfolding has_equal
  has_equal-eq-false c d cs h = ground arith

  -- Starting a candidate changes nothing that is compared.
  AreDistinct-snoc :
      (c : CandidateRelay lib) (k : lib.RelayConn) (cs : List (CandidateRelay lib))
      → has_equal sys lib c cs ≡ false
      → AreDistinct cs
      → AreDistinct (cs ++ record c { conn = some k } ∷ [])
  AreDistinct-snoc c k [] h ds = (tt, tt)
  AreDistinct-snoc c k (d ∷ cs) h (d0, ds) =
      let (e, f) = has_equal-eq-false c d cs h in
      let differs : ¬ Same d (record c { conn = some k }) = λ s. unequal-Same d c e (record {
        network_type = s.network_type;
        address = s.address;
        port = s.port;
        related_address = s.related_address;
      }) in
      (All-snoc d (record c { conn = some k }) cs d0 differs, AreDistinct-snoc c k cs f ds)

  local_candidates-close_loc :
      (l : LocConn p lib.Conn) (a : Agent lib)
      → (close_loc sys lib l a).local_candidates ≡ a.local_candidates
  unfolding close_loc on_net
  local_candidates-close_loc (ziti z) a = refl
  local_candidates-close_loc (stun_conn c) a = refl
  local_candidates-close_loc (fake_conn c) a = refl

  local_candidates-closing :
      (c : CandidateRelay lib) (k : lib.RelayConn) (a : Agent lib)
      → (close_relay sys lib k (close_candidate sys lib c a)).local_candidates ≡ a.local_candidates
  unfolding close_relay close_candidate close_conn_and_log close_client tallied on_net
  local_candidates-closing c k a =
      local_candidates-close_loc c.on_close.1 (close_client sys lib c.on_close.0 a)

  AreDistinct-append :
      (c : CandidateRelay lib) (k : lib.RelayConn) (a : Agent lib)
      → AreDistinct a.local_candidates
      → AreDistinct (append_candidate sys lib c k a).local_candidates
  unfolding append_candidate
  AreDistinct-append c k a h = elim (Bool-cases (has_equal sys lib c a.local_candidates)) [
    | inl t ↦ rw t (rw (local_candidates-closing c k a) h)
    | inr f ↦ rw f (AreDistinct-snoc c k a.local_candidates f h)
  ]

  AreDistinct-admit :
      (o : Option Error) (c : CandidateRelay lib) (k : lib.RelayConn) (a : Agent lib)
      → AreDistinct a.local_candidates
      → AreDistinct (admit sys lib o (append_candidate sys lib c k) a).1.local_candidates
  AreDistinct-admit none c k a h = AreDistinct-append c k a h
  AreDistinct-admit (some e) c k a h = h

  -- Where no two candidates of an agent have the same network type, address, port and related address, no
  -- two have once any candidate was given to addCandidate, whatever comes of it.
  pub add_candidate-AreDistinct :
      (c : CandidateRelay lib) (k : lib.RelayConn) (a : Agent lib)
      → AreDistinct a.local_candidates
      → AreDistinct (add_candidate sys lib c k a).1.local_candidates
  unfolding add_candidate run
  add_candidate-AreDistinct c k a h = AreDistinct-admit (lib.refused a.net.world.net) c k a h
