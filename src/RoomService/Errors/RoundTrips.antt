-- ===== src/RoomService/Errors/RoundTrips.antt =====
-- An error that a server sends is the one that the client is given.
use ziti_livekit_example.Prelude.{
  ℕ, ◌≤◌, String, ◌==◌, ◌≡◌, refl, ap, sym, ◌∙◌, true, false, some, [], ◌∷◌, ◌++◌, All, arith, ltb,
  inr,
}
use mathlib.Core.List.{append-nil, append_assoc}
use ziti_livekit_example.Openziti.Platform.{Platform}
use ziti_livekit_example.RoomService.Types.{Meta, set_meta, TwerrJson, Twirp, IsTwirp}
use ziti_livekit_example.RoomService.Errors.{
  is_http_redirect, marshal_error_to_json, with_all_meta, error_from_json, error_from_body,
  error_from_response,
}

-- No key of a map is the one given, and no key of a map stands in it twice.
abbrev pub Lacks : String → Meta → Type 0
Lacks k m = All (λ kv. (kv.0 == k) ≡ false) m

abbrev pub Distinct : Meta → Type 0
Distinct [] = Unit {0}
Distinct ((k, v) ∷ m) = All (λ kv. (k == kv.0) ≡ false) m × Distinct m

-- Every key of the second map is missing in the first.
abbrev Apart : Meta → Meta → Type 0
Apart acc m = All (λ kv. Lacks kv.0 acc) m

set_meta-append : (k v : String) (m : Meta) → Lacks k m → set_meta k v m ≡ m ++ (k, v) ∷ []
unfolding set_meta
set_meta-append k v [] h = refl
set_meta-append k v ((j, w) ∷ m) (h, hs) = rw h (ap (λ l. (j, w) ∷ l) (set_meta-append k v m hs))

Lacks-append :
    (k j w : String) (m : Meta) → Lacks k m → (j == k) ≡ false → Lacks k (m ++ (j, w) ∷ [])
Lacks-append k j w [] h q = (q, tt)
Lacks-append k j w (x ∷ m) (h, hs) q = (h, Lacks-append k j w m hs q)

Apart-append :
    (j w : String) (acc m : Meta)
    → Apart acc m
    → All (λ kv. (j == kv.0) ≡ false) m
    → Apart (acc ++ (j, w) ∷ []) m
Apart-append j w acc [] h q = tt
Apart-append j w acc ((k, v) ∷ m) (h, hs) (q, qs) =
    (Lacks-append k j w acc h q, Apart-append j w acc m hs qs)

Apart-nil : (m : Meta) → Apart [] m
Apart-nil [] = tt
Apart-nil (kv ∷ m) = (tt, Apart-nil m)

module _ {p : Platform} (tw : Twirp p) (is : IsTwirp tw) where
  code-with_all_meta :
      (m : Meta) (e : tw.TwirpError) → is.IsPlain e → tw.code (with_all_meta tw m e) ≡ tw.code e
  unfolding with_all_meta
  code-with_all_meta [] e h = refl
  code-with_all_meta ((k, v) ∷ m) e h =
      code-with_all_meta m (tw.with_meta e k v) (is.with_meta-IsPlain e k v h)
      ∙ is.code-with_meta e k v h

  msg-with_all_meta :
      (m : Meta) (e : tw.TwirpError) → is.IsPlain e → tw.msg (with_all_meta tw m e) ≡ tw.msg e
  unfolding with_all_meta
  msg-with_all_meta [] e h = refl
  msg-with_all_meta ((k, v) ∷ m) e h =
      msg-with_all_meta m (tw.with_meta e k v) (is.with_meta-IsPlain e k v h)
      ∙ is.msg-with_meta e k v h

  meta_map-with_all_meta :
      (m acc : Meta) (e : tw.TwirpError)
      → is.IsPlain e
      → tw.meta_map e ≡ acc
      → Apart acc m
      → Distinct m
      → tw.meta_map (with_all_meta tw m e) ≡ acc ++ m
  unfolding with_all_meta
  meta_map-with_all_meta [] acc e q h a d = h ∙ sym (append-nil acc)
  meta_map-with_all_meta ((k, v) ∷ m) acc e q h (a, as') (d, ds) =
      meta_map-with_all_meta m (acc ++ (k, v) ∷ []) (tw.with_meta e k v)
        (is.with_meta-IsPlain e k v q)
        (is.meta_map-with_meta e k v q ∙ ap (set_meta k v) h ∙ set_meta-append k v acc a)
        (Apart-append k v acc m as' d) ds
      ∙ append_assoc acc _ _

  -- Two errors have the same code, message and metadata.
  pub record Same (e e' : tw.TwirpError) : Type 0 where
    pub code : tw.code e ≡ tw.code e'
    pub msg : tw.msg e ≡ tw.msg e'
    pub meta_map : tw.meta_map e ≡ tw.meta_map e'

  abbrev pub json_of : tw.TwirpError → TwerrJson
  json_of e = record { code = tw.code e; msg = tw.msg e; meta = tw.meta_map e }

  -- The JSON of an error can be made, and is read as that error.
  abbrev pub ReadsBack : tw.TwirpError → Type 0
  ReadsBack e =
      (text : String) × (tw.marshal_error (json_of e) ≡ some text)
      × (tw.decode_error text ≡ some (json_of e))

  marshalled :
      (e : tw.TwirpError) {text : String}
      → tw.byte_length (tw.msg e) ≤ 1000000
      → tw.marshal_error (json_of e) ≡ some text
      → marshal_error_to_json tw e ≡ text
  unfolding marshal_error_to_json
  marshalled e short h =
      let tested : ltb 1000000 (tw.byte_length (tw.msg e)) ≡ false = ground arith in
      simp (marshal_error_to_json, tested, h)

  decoded-Same :
      (e : tw.TwirpError) (status : ℕ) (text : String)
      → tw.is_valid_error_code (tw.code e) ≡ true
      → (tw.code e == "") ≡ false
      → Distinct (tw.meta_map e)
      → Same (error_from_json tw status text (some (json_of e))) e
  unfolding error_from_json
  decoded-Same e status text valid some_code distinct =
      let plain = is.new_error-IsPlain (tw.code e) (tw.msg e) valid in
      rw some_code (
        rw valid (record {
          code =
              code-with_all_meta (tw.meta_map e) (tw.new_error (tw.code e) (tw.msg e)) plain
              ∙ is.code-new_error (tw.code e) (tw.msg e) valid;
          msg =
              msg-with_all_meta (tw.meta_map e) (tw.new_error (tw.code e) (tw.msg e)) plain
              ∙ is.msg-new_error (tw.code e) (tw.msg e) valid;
          meta_map =
              meta_map-with_all_meta (tw.meta_map e) [] (tw.new_error (tw.code e) (tw.msg e)) plain
                (is.meta_map-new_error (tw.code e) (tw.msg e) valid) (Apart-nil (tw.meta_map e))
                distinct;
        }))

  -- An error whose code is a valid one and not the empty one, whose message has at most a million bytes,
  -- and whose metadata has no key twice keeps its code, its message and its metadata when a server
  -- writes it as JSON and a client makes an error of the response, whatever its status is but a
  -- redirect, if the JSON of the error can be made and is read back as it was. This rests on what
  -- twirp documents of the errors that NewError makes.
  pub error_from_response-marshal :
      (e : tw.TwirpError) (status : ℕ) (location : String)
      → ReadsBack e
      → tw.is_valid_error_code (tw.code e) ≡ true
      → (tw.code e == "") ≡ false
      → tw.byte_length (tw.msg e) ≤ 1000000
      → Distinct (tw.meta_map e)
      → is_http_redirect status ≡ false
      → Same
          (error_from_response tw (record {
            status = status;
            location = location;
            body = inr (marshal_error_to_json tw e);
          }))
          e
  unfolding error_from_response error_from_body
  error_from_response-marshal e status location reads valid some_code short distinct direct =
      let (text, written, read) = reads in
      rw direct (
        rw (marshalled e short written)
          (rw read (decoded-Same e status text valid some_code distinct)))
