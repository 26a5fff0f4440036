-- ===== src/Publisher/Frames.antt =====
-- trackOnBind of publisher/main.go: the loop that encodes a frame for each tick and sends it.
pub mod Delivery
use ziti_livekit_example.Prelude.{
  ℕ, zero, suc, ◌/◌, ◌*◌, Bool, false, List, [], ◌∷◌, Option, none, some,
}
use ziti_livekit_example.Outcome.{Error, Result, ok, err, panic}
use ziti_livekit_example.Publisher.Triangle.{Float, Color, Image, draw_red_triangle}
use ziti_livekit_example.Publisher.Session.{width, height, framerate}

-- openh264.UsageTypeEnum, of which the program uses one
pub data UsageType : Type 0 where
  screen_content_real_time : UsageType

-- openh264's parameters, as they are configured
pub record EncoderParams : Type 0 where
  pub bit_rate : ℕ
  pub enable_frame_skip : Bool
  pub usage_type : UsageType
  pub video_width : ℕ
  pub video_height : ℕ
  pub frame_rate : ℕ

-- media.Sample; the duration is in nanoseconds
pub record Sample : Type 0 where
  pub payload : List ℕ
  pub duration : ℕ

-- The H.264 encoder, which asks its reader for a frame when it is read, and the track.
pub record Media : Type 1 where
  pub Encoder : Type 0
  pub Track : Type 0
  pub new_params : Result (Unit {0})
  pub build_video_encoder : EncoderParams → Result Encoder
  pub read : (Color → Image) → Encoder → Result (List ℕ) × Encoder
  pub write_sample : Sample → Track → Result (Unit {0}) × Track

-- ScreenCaptureReader.Read, with the random colour of the frame's background
unfoldable pub read_screen : Float → Color → Image
unfolding draw_red_triangle
read_screen float col = draw_red_triangle float width height col

-- time.Second / time.Duration(framerate)
abbrev pub frame_duration : ℕ
frame_duration = 1_000_000_000 / framerate

-- The loop of trackOnBind waits for a tick, or has returned its error.
pub data Sending (media : Media) : Type 0 where
  waiting : media.Encoder → media.Track → Sending media
  stopped : Error → media.Track → Sending media
  crashed : media.Track → Sending media

module _ (float : Float) (media : Media) where
  open media use {Encoder, Track, new_params, build_video_encoder, read, write_sample}

  -- track.WriteSample, and what the round gives
  unfoldable pub send_frame : Result (List ℕ) → Encoder → Track → Sending media
  send_frame (err e) enc track = stopped e track
  send_frame (panic t) enc track = crashed track
  send_frame (ok b) enc track =
      let (r, track') = write_sample (record { payload = b; duration = frame_duration }) track in
      elim r [ ok u ↦ waiting enc track' | err e ↦ stopped e track' | panic t ↦ crashed track' ]

  -- One round of the loop: enc.Read(), then track.WriteSample.
  unfoldable pub round : Encoder → Track → Sending media
  unfolding send_frame read_screen
  round enc track = let (b, enc') = read (read_screen float) enc in send_frame b enc' track

  -- The loop, for a number of ticks.
  unfoldable pub send_frames : ℕ → Sending media → Sending media
  unfolding round
  send_frames zero s = s
  send_frames (suc n) (waiting enc track) = send_frames n (round enc track)
  send_frames (suc n) (stopped e track) = stopped e track
  send_frames (suc n) (crashed track) = crashed track

  -- The encoder of trackOnBind, for the bounds of the red triangle.
  unfoldable pub new_encoder : Image → Result Encoder
  new_encoder triangle = elim new_params [
    | ok u ↦ build_video_encoder (record {
      bit_rate = 2_000_000;
      enable_frame_skip = false;
      usage_type = screen_content_real_time;
      video_width = triangle.width;
      video_height = triangle.height;
      frame_rate = framerate;
    })
    | err e ↦ err e
    | panic t ↦ panic t
  ]

  -- trackOnBind, for a number of ticks of its ticker
  unfoldable pub track_on_bind : ℕ → Image → Track → Sending media
  unfolding new_encoder send_frames
  track_on_bind ticks triangle track = elim (new_encoder triangle) [
    | ok enc ↦ send_frames ticks (waiting enc track)
    | err e ↦ stopped e track
    | panic t ↦ crashed track
  ]
