-- ===== src/SignalClient/Protocol/RoundTrips.antt =====
-- What the conversions keep.
use mathlib.Core.List.{append-nil, append_assoc}
use ziti_livekit_example.Prelude.{
  String, ◌==◌, ◌≡◌, ◌≢◌, ◌⊎◌, inl, inr, refl, ap, sym, ◌∙◌, false, some, List, [], ◌∷◌, ◌++◌, map,
  arith, eq_iff, eq_refl,
}
use ziti_livekit_example.Outcome.{ok}
use ziti_livekit_example.SignalClient.Protocol.{
  Webrtc, SessionDescription, ProtoIceServer, IceServer, append_servers, from_proto_ice_servers,
  to_proto_session_description, sdp_type_of, from_proto_session_description, to_proto_trickle,
  from_proto_trickle,
}

-- The names of the four description types differ.
pub record NamesDiffer (rtc : Webrtc) : Type 0 where
  pub offer_answer : rtc.type_string rtc.answer ≢ rtc.type_string rtc.offer
  pub offer_pranswer : rtc.type_string rtc.pranswer ≢ rtc.type_string rtc.offer
  pub offer_rollback : rtc.type_string rtc.rollback ≢ rtc.type_string rtc.offer
  pub answer_pranswer : rtc.type_string rtc.pranswer ≢ rtc.type_string rtc.answer
  pub answer_rollback : rtc.type_string rtc.rollback ≢ rtc.type_string rtc.answer
  pub pranswer_rollback : rtc.type_string rtc.rollback ≢ rtc.type_string rtc.pranswer

-- One of the four types.
abbrev pub IsKnown : (rtc : Webrtc) → rtc.SdpType → Type 0
IsKnown rtc t = (t ≡ rtc.offer) ⊎ (t ≡ rtc.answer) ⊎ (t ≡ rtc.pranswer) ⊎ (t ≡ rtc.rollback)

ne-eq_false : (s t : String) → s ≢ t → (s == t) ≡ false
ne-eq_false s t h = ground (arith, eq_iff s t)

module _ (rtc : Webrtc) where
  sdp_type_of-type_string :
      (t : rtc.SdpType) → NamesDiffer rtc → IsKnown rtc t → sdp_type_of rtc (rtc.type_string t) ≡ t
  unfolding sdp_type_of
  sdp_type_of-type_string t d (inl e) = rw e (rw (eq_refl (rtc.type_string rtc.offer)) refl)
  sdp_type_of-type_string t d (inr (inl e)) =
      rw e (rw (ne-eq_false _ _ d.offer_answer, eq_refl (rtc.type_string rtc.answer)) refl)
  sdp_type_of-type_string t d (inr (inr (inl e))) = rw e (
      rw
        (
          ne-eq_false _ _ d.offer_pranswer,
          ne-eq_false _ _ d.answer_pranswer,
          eq_refl (rtc.type_string rtc.pranswer),
        )
        refl)
  sdp_type_of-type_string t d (inr (inr (inr e))) = rw e (
      rw
        (
          ne-eq_false _ _ d.offer_rollback,
          ne-eq_false _ _ d.answer_rollback,
          ne-eq_false _ _ d.pranswer_rollback,
          eq_refl (rtc.type_string rtc.rollback),
        )
        refl)

  -- Where the names of the description types differ, a session description of one of the four types
  -- comes back from the protocol as it was.
  pub from_proto_session_description-to_proto :
      (sd : SessionDescription rtc)
      → NamesDiffer rtc
      → IsKnown rtc sd.sdp_type
      → from_proto_session_description rtc (to_proto_session_description rtc sd) ≡ sd
  unfolding from_proto_session_description to_proto_session_description
  from_proto_session_description-to_proto sd d k =
      ap (λ t. record sd { sdp_type = t }) (sdp_type_of-type_string sd.sdp_type d k)

  -- A candidate whose JSON can be read back comes back from the protocol as it was.
  pub from_proto_trickle-to_proto :
      (init : rtc.CandidateInit) (target : String) {text : String}
      → rtc.marshal init ≡ ok text
      → rtc.unmarshal text ≡ init
      → from_proto_trickle rtc (to_proto_trickle rtc init target) ≡ init
  unfolding from_proto_trickle to_proto_trickle
  from_proto_trickle-to_proto init target h k = simp (h, k)

-- A server of the protocol, as WebRTC's.
abbrev pub converted : ProtoIceServer → IceServer
converted s = record { urls = s.urls; username = s.username; credential = s.credential }

append_servers_lem :
    (ss : List ProtoIceServer) (servers : List IceServer)
    → append_servers ss servers ≡ servers ++ map converted ss
unfolding append_servers
append_servers_lem [] servers = sym (append-nil servers)
append_servers_lem (s ∷ ss) servers =
    append_servers_lem ss (servers ++ converted s ∷ []) ∙ append_assoc servers _ _

-- FromProtoIceServers converts each server of a slice, in its order.
pub from_proto_ice_servers_lem :
    (ss : List ProtoIceServer) → from_proto_ice_servers (some ss) ≡ some (map converted ss)
unfolding from_proto_ice_servers
from_proto_ice_servers_lem ss = ap some (append_servers_lem ss [])
