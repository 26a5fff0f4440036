-- ===== src/SignalClient/Protocol.antt =====
-- The conversions of lib/livekit-server-sdk/utils.go between WebRTC's types and the protocol's.
pub mod RoundTrips
use ziti_livekit_example.Prelude.{
  String, ◌==◌, Option, none, some, List, [], ◌∷◌, ◌++◌, if◌then◌else◌,
}
use ziti_livekit_example.Outcome.{Result, ok, err, panic}

-- What the functions take from WebRTC: the description types, whose zero value is `unset`, and the JSON
-- of candidates; unmarshalling gives what the empty candidate holds after it, with or without an
-- error.
pub record Webrtc : Type 1 where
  pub SdpType : Type 0
  pub unset : SdpType
  pub offer : SdpType
  pub answer : SdpType
  pub pranswer : SdpType
  pub rollback : SdpType
  pub type_string : SdpType → String
  pub CandidateInit : Type 0
  pub marshal : CandidateInit → Result String
  pub unmarshal : String → CandidateInit

-- webrtc.SessionDescription and livekit.SessionDescription
pub record SessionDescription (rtc : Webrtc) : Type 0 where
  pub sdp_type : rtc.SdpType
  pub sdp : String

pub record ProtoSessionDescription : Type 0 where
  pub type_name : String
  pub sdp : String

-- livekit.TrickleRequest
pub record TrickleRequest : Type 0 where
  pub candidate_init : String
  pub target : String

-- livekit.ICEServer and webrtc.ICEServer
pub record ProtoIceServer : Type 0 where
  pub urls : List String
  pub username : String
  pub credential : String

pub record IceServer : Type 0 where
  pub urls : List String
  pub username : String
  pub credential : String

-- The loop of FromProtoIceServers, behind the servers that it has appended.
unfoldable pub append_servers : List ProtoIceServer → List IceServer → List IceServer
append_servers [] servers = servers
append_servers (s ∷ ss) servers =
    append_servers ss
      (servers ++ record { urls = s.urls; username = s.username; credential = s.credential } ∷ [])

-- FromProtoIceServers, of a slice that may be nil
unfoldable pub from_proto_ice_servers : Option (List ProtoIceServer) → Option (List IceServer)
unfolding append_servers
from_proto_ice_servers none = none
from_proto_ice_servers (some ss) = some (append_servers ss [])

module _ (rtc : Webrtc) where
  -- ToProtoSessionDescription
  unfoldable pub to_proto_session_description : SessionDescription rtc → ProtoSessionDescription
  to_proto_session_description sd = record { type_name = rtc.type_string sd.sdp_type; sdp = sd.sdp }

  -- The switch of FromProtoSessionDescription
  unfoldable pub sdp_type_of : String → rtc.SdpType
  sdp_type_of name =
      if name == rtc.type_string rtc.offer
      then rtc.offer
      else if name == rtc.type_string rtc.answer
      then rtc.answer
      else if name == rtc.type_string rtc.pranswer
      then rtc.pranswer
      else if name == rtc.type_string rtc.rollback
      then rtc.rollback
      else rtc.unset

  -- FromProtoSessionDescription
  unfoldable pub from_proto_session_description : ProtoSessionDescription → SessionDescription rtc
  unfolding sdp_type_of
  from_proto_session_description sd = record { sdp_type = sdp_type_of sd.type_name; sdp = sd.sdp }

  -- ToProtoTrickle: without the error of json.Marshal, whose text is then empty
  unfoldable pub to_proto_trickle : rtc.CandidateInit → String → TrickleRequest
  to_proto_trickle init target = record {
    candidate_init = elim (rtc.marshal init) [ ok t ↦ t | err e ↦ "" | panic t ↦ "" ];
    target = target;
  }

  -- FromProtoTrickle
  unfoldable pub from_proto_trickle : TrickleRequest → rtc.CandidateInit
  from_proto_trickle trickle = rtc.unmarshal trickle.candidate_init
