-- ===== src/Ice/Gather/Overlay.antt =====
-- Where the connections of the relay candidates go, once lib/openziti has been set up.
use mathlib.Core.List.{Memᴰ}
use ziti_livekit_example.Prelude.{false, ◌≡◌, refl, ap, ◌∙◌, String, some, List, [], ◌∷◌, All}
use ziti_livekit_example.Outcome.{ok, Action}
use ziti_livekit_example.Outcome.Triples.{Triple-bind, Triple-pure, Triple-same}
use ziti_livekit_example.Openziti.Platform.{Platform, World}
use ziti_livekit_example.Openziti.Setup.{init_con}
use ziti_livekit_example.Openziti.Setup.Wiring.{init_con-IsWired}
use ziti_livekit_example.Stdnet.{System}
use ziti_livekit_example.Ice.Types.{
  CandidateType, relay, gathering, complete, Uri, Libs, CandidateRelay, Agent, Config,
}
use ziti_livekit_example.Livekit.{relay as relay_policy}
use ziti_livekit_example.Ice.Policy.{policy_types, agent_types}
use ziti_livekit_example.Ice.Gather.{relay_url, gather_relay, gather, gather_types}
use ziti_livekit_example.Ice.Gather.Dialling.{IsRoute, Routes-local_conn}
use ziti_livekit_example.Ice.Gather.Staying.{
  Stays, Stays-step, Stays-relay_on, Stays-set_gathering_state,
}

module _ {p : Platform} (sys : System p) (lib : Libs p) where
  Stays-gather_relay :
      (cs : p.CtxCollection) (all urls : List Uri) (cfg : Config lib)
      → All (λ url. Memᴰ url all) urls
      → Stays sys lib (IsRoute sys lib cs all) cs (gather_relay sys lib cfg urls)
  unfolding gather_relay relay_url
  Stays-gather_relay cs all [] cfg h = Triple-pure _ (λ a q. q)
  Stays-gather_relay cs all (url ∷ urls) cfg (h, hs) =
      Stays-step sys lib _ _ _ _ _
        (Triple-bind _ _ (Routes-local_conn sys lib cs all cfg url url.proto url.scheme h refl refl)
          λ l. record { at = λ a q. (Stays-relay_on sys lib _ _ url l q.1).at a q.0 })
        (Stays-gather_relay cs all urls cfg hs)

  All-Mem :
      (urls all : List Uri)
      → ((url : Uri) → Memᴰ url urls → Memᴰ url all)
      → All (λ url. Memᴰ url all) urls
  All-Mem [] all f = tt
  All-Mem (url ∷ urls) all f = (f url (Memᴰ.head refl), All-Mem urls all (λ u m. f u (Memᴰ.tail m)))

  module _ (others : CandidateType → Action (Agent lib) (Unit {0})) where
    Stays-gather :
        (cs : p.CtxCollection) (cfg : Config lib)
        → cfg.candidate_types ≡ relay ∷ []
        → Stays sys lib (IsRoute sys lib cs cfg.urls) cs (gather sys lib others cfg)
    unfolding gather gather_types
    Stays-gather cs cfg e = Triple-bind _ _ (Stays-set_gathering_state sys lib _ _ gathering) λ u.
        Triple-bind _ _
          (rw e (
            Triple-bind _ _ (Stays-gather_relay cs cfg.urls cfg.urls cfg (All-Mem _ _ (λ url m. m)))
              (λ v. Triple-pure _ (λ a q. q))))
          (λ v. Stays-set_gathering_state sys lib _ _ complete)

    -- After a successful InitCon, an agent of that world whose types of candidates are those of the relay
    -- policy that the programs join with, and which is not lite and had no candidate, holds in the end,
    -- whatever fails, only candidates whose connection was dialled in the collection of contexts that holds
    -- the context InitCon made, at the host and port of one of its "turn" URLs over UDP, or was made for a
    -- URL over TCP or a "turns" URL.
    pub gather-init_con :
        (path : String) (w : World p) {u : Unit {0}} {w' : World p} (cfg : Config lib)
        (a : Agent lib)
        → init_con p path w ≡ (ok u, w')
        → cfg.candidate_types ≡ agent_types (policy_types false relay_policy)
        → a.net.world ≡ w'
        → a.local_candidates ≡ []
        → (ctx : p.Context) × (w'.ziti_context ≡ some ctx)
          × All
              (λ (c : CandidateRelay lib).
                IsRoute sys lib (p.add_context ctx p.new_collection) cfg.urls c.on_close.1)
              (gather sys lib others cfg a).1.local_candidates
    gather-init_con path w cfg a h e world fresh =
        let wired = init_con-IsWired p path w h in
        (
          wired.context,
          wired.is_context,
          (Triple-same _ (Stays-gather _ cfg e) a (record {
            collection = ap (λ (x : World p). x.ziti_contexts) world ∙ wired.collection;
            routes = rw fresh tt;
          })).routes,
        )
