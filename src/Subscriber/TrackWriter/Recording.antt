-- ===== src/Subscriber/TrackWriter/Recording.antt =====
-- Which file is opened for a subscribed track, and what its goroutine does until it ends.
use mathlib.Core.List.{append-nil, append_assoc, map-append}
use ziti_livekit_example.Prelude.{
  sym, ap, ◌∙◌, String, ◌<>◌, ◌≡◌, ◌⊎◌, inl, inr, refl, true, false, List, [], ◌∷◌, ◌++◌, none,
  some, map,
}
use ziti_livekit_example.Outcome.{Error, Result, ok, err, panic}
use ziti_livekit_example.Text.Fold.{SameFold, equal_fold-cases}
use ziti_livekit_example.Subscriber.TrackWriter.{
  TrackInfo, vp9, h264, opus, BuilderConfig, WriterCall, ivf_writer, h264_writer, ogg_writer,
  choose, Recorder, TrackWriter, with_writer, new_track_writer, launched, on_track_subscribed,
  take_packet, start,
}

-- The track's codec is the named one, in upper or lower case.
abbrev pub HasCodec : TrackInfo → String → Type 0
HasCodec track name = SameFold track.mime_type name

-- The sample builder and the file writer for the tracks of each codec.
pub data Records (track : TrackInfo) (file_name : String)
    : BuilderConfig × WriterCall → Type 0 where
  as_ivf :
      HasCodec track "video/vp9"
      → Records track file_name (
        record {
          max_late = 1000;
          depacketizer = vp9;
          clock_rate = track.clock_rate;
          on_drop = some track.ssrc;
        },
        ivf_writer (file_name <> ".ivf"),
      )
  as_h264 :
      HasCodec track "video/h264"
      → Records track file_name (
        record {
          max_late = 1000;
          depacketizer = h264;
          clock_rate = track.clock_rate;
          on_drop = some track.ssrc;
        },
        h264_writer (file_name <> ".h264"),
      )
  as_ogg :
      HasCodec track "audio/opus"
      → Records track file_name (
        record {
          max_late = 200;
          depacketizer = opus;
          clock_rate = track.clock_rate;
          on_drop = none;
        },
        ogg_writer (file_name <> ".ogg") 48000 track.channels,
      )

-- A track of none of the three codecs.
abbrev pub Unsupported : TrackInfo → Type 0
Unsupported track =
    (¬ HasCodec track "video/vp9")
    × (¬ HasCodec track "video/h264")
    × (¬ HasCodec track "audio/opus")

-- NewTrackWriter's switch takes a track of a codec that it knows to its file, and no other.
choose_cases :
    (track : TrackInfo) (file_name : String)
    → ((plan : BuilderConfig × WriterCall) × (choose track file_name ≡ some plan)
        × Records track file_name plan)
      ⊎ ((choose track file_name ≡ none) × Unsupported track)
unfolding choose
choose_cases track file_name = elim (equal_fold-cases track.mime_type "video/vp9") [
  | inl (t1, s1) ↦ inl (_, rw t1, as_ivf s1)
  | inr (f1, n1) ↦ elim (equal_fold-cases track.mime_type "video/h264") [
    | inl (t2, s2) ↦ inl (_, rw (f1, t2), as_h264 s2)
    | inr (f2, n2) ↦ elim (equal_fold-cases track.mime_type "audio/opus") [
      | inl (t3, s3) ↦ inl (_, rw (f1, f2, t3), as_ogg s3)
      | inr (f3, n3) ↦ inr (rw (f1, f2, f3), (n1, n2, n3))
    ]
  ]
]

module _ (rec : Recorder) where
  -- A track's writer before its goroutine has read a packet.
  abbrev pub fresh : TrackInfo → BuilderConfig → rec.Writer → TrackWriter rec
  fresh track config w = record {
    sb = rec.new_builder config;
    writer = w;
    track = track;
    logged = [];
    closed = false;
  }

  -- What comes of a track and the name of its file, without an extension: the outcome of the callback,
  -- and the goroutines that run after it.
  pub data Subscribed (track : TrackInfo) (file_name : String) (running : List (TrackWriter rec))
      : Result (Unit {0}) × List (TrackWriter rec) → Type 0 where
    started :
        {config : BuilderConfig} {call : WriterCall} {w : rec.Writer}
        → Records track file_name (config, call)
        → rec.new_writer call ≡ ok w
        → Subscribed track file_name running (ok tt, running ++ fresh track config w ∷ [])
    no_file :
        {config : BuilderConfig} {call : WriterCall} {e : Error}
        → Records track file_name (config, call)
        → rec.new_writer call ≡ err e
        → Subscribed track file_name running (ok tt, running)
    no_writer :
        {config : BuilderConfig} {call : WriterCall} {t : String}
        → Records track file_name (config, call)
        → rec.new_writer call ≡ panic t
        → Subscribed track file_name running (panic t, running)
    unsupported : Unsupported track → Subscribed track file_name running (ok tt, running)

  with_writer-Subscribed :
      (track : TrackInfo) (file_name : String) (running : List (TrackWriter rec))
      (config : BuilderConfig) (call : WriterCall) (r : Result rec.Writer)
      → Records track file_name (config, call)
      → rec.new_writer call ≡ r
      → Subscribed track file_name running
          (launched rec (with_writer rec track (some (config, call))) running)
  unfolding launched with_writer
  with_writer-Subscribed track file_name running config call (ok w) s h =
      rw (launched, with_writer, h) (started s h)
  with_writer-Subscribed track file_name running config call (err e) s h =
      rw (launched, with_writer, h) (no_file s h)
  with_writer-Subscribed track file_name running config call (panic t) s h =
      rw (launched, with_writer, h) (no_writer s h)

  launched-Subscribed :
      (track : TrackInfo) (file_name : String) (running : List (TrackWriter rec))
      → Subscribed track file_name running
          (launched rec (new_track_writer rec track file_name) running)
  unfolding new_track_writer launched with_writer
  launched-Subscribed track file_name running = elim (choose_cases track file_name) [
    | inl (plan, chosen, s) ↦
        rw chosen (with_writer-Subscribed track file_name running plan.0 plan.1 _ s refl)
    | inr (none_chosen, u) ↦ rw none_chosen (unsupported u)
  ]

  -- For a subscribed track of a codec that it knows (VP9, H.264 and Opus, in any letter case)
  -- onTrackSubscribed asks for the codec's file writer (IVF, Annex B, Ogg), on a file named after
  -- the participant and the track, and with it starts one goroutine that has the codec's
  -- depacketizer and has read nothing. If the file cannot be opened, or the codec is any other,
  -- it starts none and nobody is told: it returns as after a success.
  pub on_track_subscribed-Subscribed :
      (track : TrackInfo) (identity : String) (running : List (TrackWriter rec))
      → Subscribed track
          (identity <> ("-" <> track.id))
          running
          (on_track_subscribed rec track identity running)
  unfolding on_track_subscribed
  on_track_subscribed-Subscribed track identity running = launched-Subscribed track _ running

  -- The packets that a builder gives out while others are pushed, and the builder that is left.
  abbrev pub reordered : List rec.Packet → rec.Builder → List rec.Packet
  reordered [] sb = []
  reordered (pkt ∷ pkts) sb =
      (rec.pop_packets (rec.push pkt sb)).0 ++ reordered pkts (rec.pop_packets (rec.push pkt sb)).1

  abbrev pub builder_after : List rec.Packet → rec.Builder → rec.Builder
  builder_after [] sb = sb
  builder_after (pkt ∷ pkts) sb = builder_after pkts (rec.pop_packets (rec.push pkt sb)).1

  -- The goroutine of a track that gives packets and then fails has pushed those packets in their order,
  -- logged the lengths of all that the builder gave out, and closed the writer; what the track
  -- would give later is not read.
  pub start_lem :
      (pkts : List rec.Packet) (e : Error) (later : List (Result rec.Packet)) (t : TrackWriter rec)
      → start rec (map ok pkts ++ err e ∷ later) t ≡ record t {
        sb = builder_after pkts t.sb;
        logged = t.logged ++ map rec.payload_length (reordered pkts t.sb);
        closed = true;
      }
  unfolding start take_packet
  start_lem [] e later t =
      ap (λ l. record t { logged = l; closed = true }) (sym (append-nil t.logged))
  start_lem (pkt ∷ pkts) e later t =
      start_lem pkts e later (take_packet rec pkt t)
      ∙ ap (λ l. record t { sb = builder_after (pkt ∷ pkts) t.sb; logged = l; closed = true })
          (append_assoc t.logged _ _ ∙ ap (λ l. t.logged ++ l) (sym (map-append _ _ _)))
