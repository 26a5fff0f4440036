-- ===== src/Publisher/Frames/Delivery.antt =====
-- What the loop of trackOnBind has given to the track when it is stopped, or still runs.
use ziti_livekit_example.Prelude.{ℕ, zero, suc, ◌≤◌, ◌≡◌, refl, ap, List, [], ◌∷◌, length, arith}
use ziti_livekit_example.Outcome.{Error, Result, ok}
use ziti_livekit_example.Publisher.Triangle.{Float}
use ziti_livekit_example.Publisher.Frames.{
  Media, read_screen, frame_duration, Sending, waiting, stopped, crashed, send_frame, round,
  send_frames,
}

module _ (float : Float) (media : Media) where
  open media use {Encoder, Track, read, write_sample}

  -- From an encoder and a track to others, the encoder's frames of the drawn screen were written to the
  -- track in their order, each as a sample of one frame's duration.
  pub data Delivers : Encoder → Track → List (List ℕ) → Encoder → Track → Type 0 where
    nothing : {enc : Encoder} {track : Track} → Delivers enc track [] enc track
    frame :
        {enc enc' enc'' : Encoder} {track track' track'' : Track} {b : List ℕ} {bs : List (List ℕ)}
        {u : Unit {0}}
        → read (read_screen float) enc ≡ (ok b, enc')
        → write_sample (record { payload = b; duration = frame_duration }) track ≡ (ok u, track')
        → Delivers enc' track' bs enc'' track''
        → Delivers enc track (b ∷ bs) enc'' track''

  -- One round that goes on has delivered one frame.
  send_frame-waiting :
      (r : Result (List ℕ)) (enc : Encoder) (track : Track) {enc' : Encoder} {track' : Track}
      → send_frame float media r enc track ≡ waiting enc' track'
      → (b : List ℕ) × (u : Unit {0}) × (r ≡ ok b)
        × (write_sample (record { payload = b; duration = frame_duration }) track ≡ (ok u, track'))
        × (enc ≡ enc')
  unfolding send_frame
  send_frame-waiting r enc track h = ground arith

  -- The loop and its ticks, from a loop that has stopped.
  send_frames-stopped_lem :
      (n : ℕ) (e : Error) (track : Track)
      → send_frames float media n (stopped e track) ≡ stopped e track
  unfolding send_frames
  send_frames-stopped_lem zero e track = refl
  send_frames-stopped_lem (suc n) e track = refl

  send_frames-crashed_lem :
      (n : ℕ) (track : Track) → send_frames float media n (crashed track) ≡ crashed track
  unfolding send_frames
  send_frames-crashed_lem zero track = refl
  send_frames-crashed_lem (suc n) track = refl

  -- What the loop has done to the track when it stands at a state: it has written a frame for each
  -- tick, or fewer, before the round that ended it.
  abbrev pub Sent : ℕ → Encoder → Track → Sending media → Type 0
  Sent n enc track (waiting enc' track') =
      (bs : List (List ℕ)) × (length bs ≡ n) × Delivers enc track bs enc' track'
  Sent n enc track (stopped e track') =
      (bs : List (List ℕ)) × (enc1 : Encoder) × (track1 : Track) × (suc (length bs) ≤ n)
      × Delivers enc track bs enc1 track1
      × (round float media enc1 track1 ≡ stopped e track')
  Sent n enc track (crashed track') =
      (bs : List (List ℕ)) × (enc1 : Encoder) × (track1 : Track) × (suc (length bs) ≤ n)
      × Delivers enc track bs enc1 track1
      × (round float media enc1 track1 ≡ crashed track')

  Sent-frame :
      (n : ℕ) {enc enc1 : Encoder} {track track1 : Track} {b : List ℕ} {u : Unit {0}}
      (s : Sending media)
      → read (read_screen float) enc ≡ (ok b, enc1)
      → write_sample (record { payload = b; duration = frame_duration }) track ≡ (ok u, track1)
      → Sent n enc1 track1 s
      → Sent (suc n) enc track s
  Sent-frame n {b} (waiting enc' track') r w (bs, len, d) = (b ∷ bs, ap suc len, frame r w d)
  Sent-frame n {b} (stopped e track') r w (bs, enc2, track2, len, d, last) =
      (b ∷ bs, enc2, track2, omega arith, frame r w d, last)
  Sent-frame n {b} (crashed track') r w (bs, enc2, track2, len, d, last) =
      (b ∷ bs, enc2, track2, omega arith, frame r w d, last)

  after_round :
      (n : ℕ) (enc : Encoder) (track : Track) (s : Sending media)
      → ((enc' : Encoder) (track' : Track)
          → Sent n enc' track' (send_frames float media n (waiting enc' track')))
      → round float media enc track ≡ s
      → Sent (suc n) enc track (send_frames float media n s)
  unfolding round
  after_round n enc track (waiting enc' track') ih h =
      let (b, u, r, w, same) = send_frame-waiting _ _ track h in
      Sent-frame n _ (λ i. (r i, same i)) w (ih enc' track')
  after_round n enc track (stopped e track') ih h =
      rw (send_frames-stopped_lem n e track') ([], enc, track, omega arith, nothing, h)
  after_round n enc track (crashed track') ih h =
      rw (send_frames-crashed_lem n track') ([], enc, track, omega arith, nothing, h)

  -- After any number of ticks the loop still runs and has written that many frames, each the
  -- encoder's next and in order, or it has stopped at the first round that failed, and every frame
  -- before that one was written.
  pub send_frames-Sent :
      (n : ℕ) (enc : Encoder) (track : Track)
      → Sent n enc track (send_frames float media n (waiting enc track))
  unfolding send_frames
  send_frames-Sent zero enc track = ([], refl, nothing)
  send_frames-Sent (suc n) enc track =
      after_round n enc track (round float media enc track) (send_frames-Sent n) refl
