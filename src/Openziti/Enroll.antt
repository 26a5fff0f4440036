-- ===== src/Openziti/Enroll.antt =====
-- lib/openziti/enroll.go: turning an enrollment token into an identity file.
pub mod Files
pub mod Paths
use Prim.Native.Nat.{◌-◌}
use Prim.Native.String.{len, slice}
use ziti_livekit_example.Prelude.{String, Bool, ◌==◌, ◌<>◌, true, false, ◌||◌, not, if◌then◌else◌}
use ziti_livekit_example.Outcome.{
  Error, not_exist, reason, error_text, Result, ok, err, panic, Action, pure, lift, guard, attempt,
  ◌>>=◌, ◌>>◌,
}
use ziti_livekit_example.Text.{has_suffix, trim_space}
use ziti_livekit_example.Openziti.Platform.{Platform, World, EnrollmentFlags}
use ziti_livekit_example.Openziti.Disk.{os_stat, read_file, create_file, encode_file, remove_file}

-- EnrollOptions, with the one field of CommonOptions that is read
pub record EnrollOptions : Type 0 where
  pub remove_jwt : Bool
  pub key_alg : String
  pub jwt_path : String
  pub jwt_string : String
  pub output_path : String
  pub key_path : String
  pub cert_path : String
  pub id_name : String
  pub ca_override : String
  pub username : String
  pub password : String
  pub verbose : Bool

-- fmt.Errorf(prefix + "%s", err), on the error of a result
unfoldable pub wrap {ℓ} : {A : Type ℓ} → String → Result A → Result A
wrap prefix (ok a) = ok a
wrap prefix (err e) = err (reason (prefix <> error_text e))
wrap prefix (panic t) = panic t

-- outPathFromJwt
unfoldable pub out_path_from_jwt : String → Result String
out_path_from_jwt jwt =
    if has_suffix jwt ".jwt"
    then ok (slice jwt 0 (len jwt - len ".jwt") <> ".json")
    else if has_suffix jwt ".json"
    then err (
        reason
          "unexpected configuration. cannot infer 'out' flag if the jwt file ends in .json. rename jwt file or provide the 'out' flag")
    else ok (jwt <> ".json")

-- `e.OutputPath` after the start of Run
unfoldable pub resolve_output_path : EnrollOptions → Result String
unfolding wrap out_path_from_jwt
resolve_output_path e =
    if trim_space e.output_path == ""
    then wrap "could not set the output path: " (out_path_from_jwt e.jwt_path)
    else ok e.output_path

-- os.IsNotExist of an outcome's error, and the text that a failed read leaves
abbrev pub is_not_exist {ℓ} : {A : Type ℓ} → Result A → Bool
is_not_exist (err not_exist) = true
is_not_exist _ = false

abbrev pub or_empty : Result String → String
or_empty (ok t) = t
or_empty _ = ""

-- The error of an identity file that could not be written.
unfoldable pub not_written : String → Result (Unit {0}) → Result (Unit {0})
not_written out (err e) = err (
    reason (
      "enrollment successful but the identity file was not able to be written to: "
      <> (out <> (" [" <> (error_text e <> "]")))))
not_written out r = r

module _ (p : Platform) where
  -- The token's text and the output path, where no JWTString is given.
  unfoldable pub read_token : EnrollOptions → Action (World p) (String × String)
  unfolding resolve_output_path
  read_token e = do
    out ← lift (resolve_output_path e)
    found ← attempt (os_stat p e.jwt_path)
    guard (e.jwt_path == "" || not (is_not_exist found))
        (reason ("the provided jwt file does not exist: " <> e.jwt_path))
    guard (not (trim_space out == trim_space e.jwt_path))
        (reason "the output path must not be the same as the jwt path")
    bytes ← attempt (read_file p e.jwt_path)
    pure (or_empty bytes, out)

  -- enroll.ParseToken and enroll.Enroll with the options' flags
  unfoldable pub enroll_token : EnrollOptions → String → Action (World p) p.Config
  unfolding wrap
  enroll_token e token w =
      (do
        tkn ← lift (wrap "failed to parse JWT: " (p.parse_token token))
        λ w.
            let (r, net') =
              p.enroll
                (record {
                  cert_file = e.cert_path;
                  key_file = e.key_path;
                  key_alg = e.key_alg;
                  token = tkn;
                  id_name = e.id_name;
                  additional_cas = e.ca_override;
                  username = e.username;
                  password = e.password;
                  verbose = e.verbose;
                })
                w.net in
            (wrap "failed to enroll: " r, record w { net = net' }))
        w

  -- The identity file is written, then the token's file is removed, whatever the write gave.
  unfoldable pub write_identity : EnrollOptions → String → p.Config → Action (World p) String
  unfolding wrap not_written
  write_identity e out conf = do
    created ← attempt (create_file p out)
    lift (wrap ("failed to open file '" <> (out <> "': ")) created)
    encoded ← attempt (encode_file p out (p.encode conf))
    removed ← attempt (remove_file p e.jwt_path)
    lift (not_written out encoded)
    pure ""

  -- Run with a token's file: the identity goes to a file.
  unfoldable pub run_path : EnrollOptions → Action (World p) String
  run_path e = do
    (token, out) ← read_token e
    conf ← enroll_token e token
    write_identity e out conf

  -- Run with a token's text: the identity is returned.
  unfoldable pub run_string : EnrollOptions → Action (World p) String
  unfolding wrap
  run_string e = do
    conf ← enroll_token e e.jwt_string
    lift (wrap "enrollment successfull, but failed to encode to json: " (p.encode conf))

  -- (*EnrollAction).Run
  unfoldable pub run : EnrollOptions → Action (World p) String
  run e = if e.jwt_string == "" then run_path e else run_string e
