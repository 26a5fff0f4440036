-- ===== src/Subscriber/TrackWriter.antt =====
-- onTrackSubscribed, NewTrackWriter and TrackWriter.start of subscriber/main.go. The sample builder
-- and the file writers are parameters; tracks give packets or an error, in an order.
pub mod Recording
use ziti_livekit_example.Prelude.{
  ℕ, String, ◌<>◌, Bool, true, false, List, [], ◌∷◌, ◌++◌, Option, none, some, map, if◌then◌else◌,
}
use ziti_livekit_example.Outcome.{Error, reason, Result, ok, err, panic, Action}
use ziti_livekit_example.Text.{equal_fold}

abbrev pub max_video_late : ℕ
max_video_late = 1000

abbrev pub max_audio_late : ℕ
max_audio_late = 200

-- What a webrtc.TrackRemote says of itself.
pub record TrackInfo : Type 0 where
  pub id : String
  pub ssrc : ℕ
  pub mime_type : String
  pub clock_rate : ℕ
  pub channels : ℕ

-- The codecs' depacketizers.
pub data Depacketizer : Type 0 where
  vp9 h264 opus : Depacketizer

-- The arguments of samplebuilder.New; `on_drop` is the SSRC that its handler asks a picture of.
pub record BuilderConfig : Type 0 where
  pub max_late : ℕ
  pub depacketizer : Depacketizer
  pub clock_rate : ℕ
  pub on_drop : Option ℕ

-- The file writers' constructors, with the name of the file.
pub data WriterCall : Type 0 where
  ivf_writer h264_writer : String → WriterCall
  ogg_writer : String → ℕ → ℕ → WriterCall

-- The switch of NewTrackWriter on the track's codec.
unfoldable pub choose : TrackInfo → String → Option (BuilderConfig × WriterCall)
unfolding equal_fold
choose track file_name =
    if equal_fold track.mime_type "video/vp9"
    then some (
      record {
        max_late = max_video_late;
        depacketizer = vp9;
        clock_rate = track.clock_rate;
        on_drop = some track.ssrc;
      },
      ivf_writer (file_name <> ".ivf"),
    )
    else if equal_fold track.mime_type "video/h264"
    then some (
      record {
        max_late = max_video_late;
        depacketizer = h264;
        clock_rate = track.clock_rate;
        on_drop = some track.ssrc;
      },
      h264_writer (file_name <> ".h264"),
    )
    else if equal_fold track.mime_type "audio/opus"
    then some (
      record {
        max_late = max_audio_late;
        depacketizer = opus;
        clock_rate = track.clock_rate;
        on_drop = none;
      },
      ogg_writer (file_name <> ".ogg") 48000 track.channels,
    )
    else none

pub record Recorder : Type 1 where
  pub Builder : Type 0
  pub Writer : Type 0
  pub Packet : Type 0
  pub payload_length : Packet → ℕ
  pub new_builder : BuilderConfig → Builder
  pub new_writer : WriterCall → Result Writer
  pub push : Packet → Builder → Builder
  pub pop_packets : Builder → List Packet × Builder

-- TrackWriter, with the lengths that its goroutine has logged, the first one first, and whether
-- its writer was closed.
pub record TrackWriter (rec : Recorder) : Type 0 where
  pub sb : rec.Builder
  pub writer : rec.Writer
  pub track : TrackInfo
  pub logged : List ℕ
  pub closed : Bool

module _ (rec : Recorder) where
  -- NewTrackWriter after the switch: the writer's error, or the goroutine's first state
  unfoldable pub with_writer :
      TrackInfo → Option (BuilderConfig × WriterCall) → Result (TrackWriter rec)
  with_writer track none = err (reason "unsupported codec type")
  with_writer track (some (config, call)) = elim (rec.new_writer call) [
    | ok w ↦ ok (record {
      sb = rec.new_builder config;
      writer = w;
      track = track;
      logged = [];
      closed = false;
    })
    | err e ↦ err e
    | panic t ↦ panic t
  ]

  -- NewTrackWriter
  unfoldable pub new_track_writer : TrackInfo → String → Result (TrackWriter rec)
  unfolding choose with_writer
  new_track_writer track file_name = with_writer track (choose track file_name)

  -- What onTrackSubscribed makes of NewTrackWriter's results, beside the goroutines that run: the
  -- writer is kept by its goroutine alone, and the error is dropped.
  unfoldable pub launched :
      Result (TrackWriter rec) → List (TrackWriter rec) → Result (Unit {0}) × List (TrackWriter rec)
  launched (ok t) running = (ok tt, running ++ t ∷ [])
  launched (err e) running = (ok tt, running)
  launched (panic t) running = (panic t, running)

  -- onTrackSubscribed, beside the goroutines of earlier tracks: the file is named after the
  -- participant and the track
  unfoldable pub on_track_subscribed :
      TrackInfo → String → Action (List (TrackWriter rec)) (Unit {0})
  unfolding new_track_writer launched
  on_track_subscribed track identity running =
      launched (new_track_writer track (identity <> ("-" <> track.id))) running

  -- A round of start with a packet: it is pushed, and the lengths of what comes out are logged.
  unfoldable pub take_packet : rec.Packet → TrackWriter rec → TrackWriter rec
  take_packet pkt t =
      let (packets, sb') = rec.pop_packets (rec.push pkt t.sb) in
      record t { sb = sb'; logged = t.logged ++ map rec.payload_length packets }

  -- start, over what ReadRTP gives: the loop breaks at an error, and the writer is closed
  unfoldable pub start : List (Result rec.Packet) → TrackWriter rec → TrackWriter rec
  unfolding take_packet
  start [] t = t
  start (ok pkt ∷ reads) t = start reads (take_packet pkt t)
  start (err e ∷ reads) t = record t { closed = true }
  start (panic x ∷ reads) t = record t { closed = true }
