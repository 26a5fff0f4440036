-- ===== src/Openziti/Enroll/Files.antt =====
-- What enrolling leaves alone, and what it does to the files.
use ziti_livekit_example.Prelude.{
  String, ◌∙◌, ◌≡◌, ◌≢◌, ap, none, some, true, ◌==◌, ◌<>◌, arith, inl, inr, Bool-cases, eq_iff,
  eq_refl,
}
use mathlib.Core.Path.{subst}
use ziti_livekit_example.Outcome.{Error, reason, error_text, Result, ok, err, lift, ◌>>=◌}
use ziti_livekit_example.Outcome.Inversion.{bind-eq-ok, bind_of_ok}
use ziti_livekit_example.Outcome.Keeps.{Keeps, Keeps-bind}
use ziti_livekit_example.Text.{trim_space}
use ziti_livekit_example.Openziti.Platform.{Platform, World, EnrollmentFlags, create, write, remove}
use ziti_livekit_example.Openziti.Disk.{
  file_error, os_stat, read_file, create_file, encode_file, remove_file,
}
use ziti_livekit_example.Openziti.Enroll.{
  EnrollOptions, wrap, or_empty, resolve_output_path, read_token, enroll_token, write_identity,
  run_path, run_string, run,
}

-- From one world to the next, only the disk and the network have changed.
pub record OnlyFiles {p : Platform} (w w' : World p) : Type 0 where
  pub session_token : w'.session_token ≡ w.session_token
  pub ziti_context : w'.ziti_context ≡ w.ziti_context
  pub ziti_contexts : w'.ziti_contexts ≡ w.ziti_contexts
  pub transport : w'.transport ≡ w.transport
  pub client : w'.client ≡ w.client
  pub custom_dialer : w'.custom_dialer ≡ w.custom_dialer
  pub websocket : w'.websocket ≡ w.websocket
  pub transports : w'.transports ≡ w.transports
  pub keepalives : w'.keepalives ≡ w.keepalives
  pub sent : w'.sent ≡ w.sent
  pub open_bodies : w'.open_bodies ≡ w.open_bodies

OnlyFiles-refl : {p : Platform} (w : World p) → OnlyFiles w w
OnlyFiles-refl w = ground arith

OnlyFiles-trans : {p : Platform} (a b c : World p) → OnlyFiles a b → OnlyFiles b c → OnlyFiles a c
OnlyFiles-trans a b c h k = ground arith

-- The error of an identity that could not be written.
abbrev pub unwritten : String → Error → Error
unwritten out x = reason (
    "enrollment successful but the identity file was not able to be written to: "
    <> (out <> (" [" <> (error_text x <> "]"))))

module _ (p : Platform) where
  pub read_token-unchanged : (e : EnrollOptions) (w : World p) → (read_token p e w).1 ≡ w
  unfolding read_token os_stat read_file ◌>>=◌
  read_token-unchanged e w = ground arith

  pub enroll_token-disk :
      (e : EnrollOptions) (token : String) (w : World p)
      → (enroll_token p e token w).1.disk ≡ w.disk
  unfolding enroll_token ◌>>=◌
  enroll_token-disk e token w = ground arith

  read_token-Keeps : (e : EnrollOptions) → Keeps OnlyFiles (read_token p e)
  read_token-Keeps e = record { at = λ w. rw (read_token-unchanged e w) (OnlyFiles-refl w) }

  enroll_token-Keeps :
      (e : EnrollOptions) (token : String) → Keeps OnlyFiles (enroll_token p e token)
  unfolding enroll_token ◌>>=◌
  enroll_token-Keeps e token = record { at = λ w. ground arith }

  write_identity-Keeps :
      (e : EnrollOptions) (out : String) (conf : p.Config)
      → Keeps OnlyFiles (write_identity p e out conf)
  unfolding write_identity create_file remove_file encode_file ◌>>=◌
  write_identity-Keeps e out conf = record { at = λ w. ground arith }

  lift-Keeps : {A : Type 0} (r : Result A) → Keeps OnlyFiles (lift {S = World p} r)
  unfolding lift
  lift-Keeps r = record { at = OnlyFiles-refl }

  run_path-Keeps : (e : EnrollOptions) → Keeps OnlyFiles (run_path p e)
  unfolding run_path
  run_path-Keeps e = Keeps-bind OnlyFiles-refl OnlyFiles-trans _ _ (read_token-Keeps e) λ t.
      Keeps-bind OnlyFiles-refl OnlyFiles-trans _ _ (enroll_token-Keeps e t.0)
        λ conf. write_identity-Keeps e t.1 conf

  run_string-Keeps : (e : EnrollOptions) → Keeps OnlyFiles (run_string p e)
  unfolding run_string
  run_string-Keeps e =
      Keeps-bind OnlyFiles-refl OnlyFiles-trans _ _ (enroll_token-Keeps e e.jwt_string)
        λ conf. lift-Keeps _

  -- Whatever its outcome, Run of an enrollment leaves the package's variables, the requests sent and the
  -- open bodies as they were.
  pub run-Keeps : (e : EnrollOptions) → Keeps OnlyFiles (run p e)
  unfolding run
  run-Keeps e = elim (Bool-cases (e.jwt_string == "")) [
    | inl t ↦ rw t (run_path-Keeps e)
    | inr f ↦ rw f (run_string-Keeps e)
  ]

  -- A file's text is written whole: the identity's at the output path.
  write_identity-eq-ok :
      (e : EnrollOptions) (out : String) (conf : p.Config) (w : World p) {t : String} {w' : World p}
      → out ≢ e.jwt_path
      → write_identity p e out conf w ≡ (ok t, w')
      → (text : String) × (p.encode conf ≡ ok text) × (w'.disk.contents out ≡ some text)
  unfolding write_identity create_file remove_file encode_file ◌>>=◌
  write_identity-eq-ok e out conf w ne h =
      ground (arith, eq_iff out e.jwt_path, eq_iff e.jwt_path out, eq_refl out)

  -- The path that a token is read for differs from the token's.
  read_token-eq-ok :
      (e : EnrollOptions) (w : World p) {token out : String} {w' : World p}
      → read_token p e w ≡ (ok (token, out), w')
      → (resolve_output_path e ≡ ok out) × (out ≢ e.jwt_path)
  unfolding read_token os_stat read_file ◌>>=◌
  read_token-eq-ok e w {out} h =
      ground (arith, λ (q : out ≡ e.jwt_path). ap trim_space q, eq_refl (trim_space e.jwt_path))

  run_path_of :
      (e : EnrollOptions) (w : World p) {t : String} {w' : World p}
      → e.jwt_string ≡ ""
      → run p e w ≡ (ok t, w')
      → run_path p e w ≡ (ok t, w')
  unfolding run
  run_path_of e w j h =
      let t : (e.jwt_string == "") ≡ true = (eq_iff e.jwt_string "").1 j in rw t at h

  -- The flags that the options give for a token.
  abbrev pub flags_of : EnrollOptions → p.Token → EnrollmentFlags p.Token
  flags_of e tkn = record {
    cert_file = e.cert_path;
    key_file = e.key_path;
    key_alg = e.key_alg;
    token = tkn;
    id_name = e.id_name;
    additional_cas = e.ca_override;
    username = e.username;
    password = e.password;
    verbose = e.verbose;
  }

  -- The controller has given the configuration for a token's text, with the options' flags.
  abbrev pub IsEnrolled : EnrollOptions → String → World p → p.Config → Type 0
  IsEnrolled e text w conf =
      (tkn : p.Token) × (p.parse_token text ≡ ok tkn)
      × ((p.enroll (flags_of e tkn) w.net).0 ≡ ok conf)

  enroll_token-eq-ok :
      (e : EnrollOptions) (text : String) (w : World p) {conf : p.Config} {w' : World p}
      → enroll_token p e text w ≡ (ok conf, w')
      → IsEnrolled e text w conf
  unfolding enroll_token wrap ◌>>=◌
  enroll_token-eq-ok e text w h = ground arith

  -- The text that is taken for the token is that of its file, or empty if the file cannot be read.
  token_of_file :
      (e : EnrollOptions) (w : World p) {token out : String} {w' : World p}
      → read_token p e w ≡ (ok (token, out), w')
      → token ≡ or_empty (read_file p e.jwt_path w).0
  unfolding read_token os_stat ◌>>=◌
  token_of_file e w h = ground arith

  -- The world after a token was read, and the disk after it was enrolled.
  read_token_keeps_world :
      (e : EnrollOptions) (w : World p) {token out : String} {w' : World p}
      → read_token p e w ≡ (ok (token, out), w')
      → w' ≡ w
  read_token_keeps_world e w h = cc (ap (λ x. x.1) h, read_token-unchanged e w)

  enroll_token_keeps_disk :
      (e : EnrollOptions) (token : String) (w : World p) {conf : p.Config} {w' : World p}
      → enroll_token p e token w ≡ (ok conf, w')
      → w'.disk ≡ w.disk
  enroll_token_keeps_disk e token w h = cc (ap (λ x. x.1.disk) h, enroll_token-disk e token w)

  -- A successful Run with a token's file leaves, at the output path that the options give, exactly the
  -- JSON of the configuration that enrolling the token gave, with the options' flags. The token
  -- is what its file reads as, or the empty text where it cannot be read.
  pub run-eq-ok :
      (e : EnrollOptions) (w : World p) {t : String} {w' : World p}
      → e.jwt_string ≡ ""
      → run p e w ≡ (ok t, w')
      → (out : String) × (conf : p.Config) × (text : String) × (resolve_output_path e ≡ ok out)
        × IsEnrolled e (or_empty (read_file p e.jwt_path w).0) w conf
        × (p.encode conf ≡ ok text)
        × (w'.disk.contents out ≡ some text)
  unfolding run_path
  run-eq-ok e w j h =
      let (a, u, h1, k1) = bind-eq-ok _ _ w (run_path_of e w j h) in
      let (conf, v, h2, k2) = bind-eq-ok _ _ u k1 in
      let (resolved, differs) = read_token-eq-ok e w h1 in
      let same_world = read_token_keeps_world e w h1 in
      let enrolled =
        subst (λ x. IsEnrolled e a.0 x conf) same_world (enroll_token-eq-ok e a.0 u h2) in
      let (text, encoded, written) = write_identity-eq-ok e a.1 conf v differs k2 in
      (
        a.1,
        conf,
        text,
        resolved,
        subst (λ x. IsEnrolled e x w conf) (token_of_file e w h1) enrolled,
        encoded,
        written,
      )

  -- A write of the identity that fails, and the removal of the token's file after it.
  write_identity_fails :
      (e : EnrollOptions) (out : String) (conf : p.Config) (w : World p) {text token : String}
      {x : Error}
      → out ≢ e.jwt_path
      → w.disk.fault create out ≡ none
      → p.encode conf ≡ ok text
      → w.disk.fault write out ≡ some x
      → w.disk.fault remove e.jwt_path ≡ none
      → w.disk.contents e.jwt_path ≡ some token
      → let (r, w') = write_identity p e out conf w in
        (r ≡ err (unwritten out x))
        × (w'.disk.contents out ≡ some (w.disk.partial out text))
        × (w'.disk.contents e.jwt_path ≡ none)
  unfolding write_identity create_file remove_file encode_file file_error ◌>>=◌
  write_identity_fails e out conf w ne h1 h2 h3 h4 h5 =
      ground (arith, eq_iff out e.jwt_path, eq_iff e.jwt_path out, eq_refl out, eq_refl e.jwt_path)

  run_of_path : (e : EnrollOptions) (w : World p) → e.jwt_string ≡ "" → run p e w ≡ run_path p e w
  unfolding run
  run_of_path e w j = let t : (e.jwt_string == "") ≡ true = (eq_iff e.jwt_string "").1 j in rw t

  -- Once Run has read a token's file and enrolled the token, and has created the output file, a write of
  -- the identity that fails loses the token where its file can be removed: Run fails with the
  -- write's error, the output file holds only what the failed write left, and the token's file is
  -- gone.
  pub run_loses_token :
      (e : EnrollOptions) (w : World p) {token out text bytes : String} {conf : p.Config}
      {w1 w2 : World p} {x : Error}
      → e.jwt_string ≡ ""
      → read_token p e w ≡ (ok (token, out), w1)
      → enroll_token p e token w1 ≡ (ok conf, w2)
      → p.encode conf ≡ ok text
      → w.disk.fault create out ≡ none
      → w.disk.fault write out ≡ some x
      → w.disk.fault remove e.jwt_path ≡ none
      → w.disk.contents e.jwt_path ≡ some bytes
      → let (r, w') = run p e w in
        (r ≡ err (unwritten out x))
        × (w'.disk.contents out ≡ some (w.disk.partial out text))
        × (w'.disk.contents e.jwt_path ≡ none)
  unfolding run_path
  run_loses_token e w {token} {out} {text} {bytes} {conf} {w1} {w2} {x} j h1 h2 h3 h4 h5 h6 h7 =
      let (resolved, differs) = read_token-eq-ok e w h1 in
      let disk : w2.disk ≡ w.disk =
        enroll_token_keeps_disk e token w1 h2 ∙ ap (λ v. v.disk) (read_token_keeps_world e w h1) in
      let (fails, left, gone) =
        write_identity_fails e out conf w2 {text = text} {token = bytes} {x = x} differs
          (rw disk h4) h3 (rw disk h5) (rw disk h6) (rw disk h7) in
      rw (run_of_path e w j, bind_of_ok _ _ w h1, bind_of_ok _ _ w1 h2)
        (fails, left ∙ ap (λ d. some (d.partial out text)) disk, gone)
