-- ===== src/SignalClient/Requests.antt =====
-- The Send functions: each builds a request and hands it to SendRequest.
pub mod Wire
use ziti_livekit_example.Prelude.{String, Bool, Option, none, some}
use ziti_livekit_example.Outcome.{reason, Result, Action, fail, lift, ◌>>=◌}
use ziti_livekit_example.SignalClient.Types.{
  SignalRequest, trickle_request, offer_request, answer_request, mute_request, sync_state_request,
  track_setting_request, update_metadata_request, leave_request, Websocket, Client, on_net,
}

module _ (ws : Websocket) where
  unfoldable pub send_on : Option ws.Conn → SignalRequest → Action (Client ws) (Unit {0})
  send_on none req = fail (reason "client is not connected")
  send_on (some conn) req = do
    payload ← lift (ws.proto_marshal req)
    on_net (ws.write_message conn payload)

  -- SendRequest
  unfoldable pub send_request : SignalRequest → Action (Client ws) (Unit {0})
  unfolding send_on
  send_request req c = send_on c.conn req c

  -- SendICECandidate
  unfoldable pub send_ice_candidate : String → String → Action (Client ws) (Unit {0})
  send_ice_candidate candidate target = send_request (trickle_request candidate target)

  -- SendOffer
  unfoldable pub send_offer : String → Action (Client ws) (Unit {0})
  send_offer sd = send_request (offer_request sd)

  -- SendAnswer
  unfoldable pub send_answer : String → Action (Client ws) (Unit {0})
  send_answer sd = send_request (answer_request sd)

  -- SendMuteTrack
  unfoldable pub send_mute_track : String → Bool → Action (Client ws) (Unit {0})
  send_mute_track sid muted = send_request (mute_request sid muted)

  -- SendSyncState
  unfoldable pub send_sync_state : String → Action (Client ws) (Unit {0})
  send_sync_state state = send_request (sync_state_request state)

  -- SendLeave
  unfoldable pub send_leave : Action (Client ws) (Unit {0})
  send_leave = send_request leave_request

  -- SendUpdateTrackSettings
  unfoldable pub send_update_track_settings : String → Action (Client ws) (Unit {0})
  send_update_track_settings settings = send_request (track_setting_request settings)

  -- SendUpdateParticipantMetadata
  unfoldable pub send_update_participant_metadata : String → Action (Client ws) (Unit {0})
  send_update_participant_metadata metadata = send_request (update_metadata_request metadata)
