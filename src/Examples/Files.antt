-- ===== src/Examples/Files.antt =====
-- Enrolling with a token's file, on a disk that takes the identity and on one that does not.
use ziti_livekit_example.Prelude.{String, ◌≡◌, refl, false, none, some}
use ziti_livekit_example.Outcome.{reason, ok, err, ◌>>=◌}
use ziti_livekit_example.Text.{has_suffix, trim_space, is_space}
use ziti_livekit_example.Openziti.Platform.{World, Disk, write}
use ziti_livekit_example.Openziti.Disk.{
  file_error, os_stat, read_file, create_file, encode_file, remove_file,
}
use ziti_livekit_example.Openziti.Enroll.{
  EnrollOptions, run, run_path, run_string, read_token, or_empty, resolve_output_path,
  out_path_from_jwt, wrap, enroll_token, write_identity, not_written,
}
use ziti_livekit_example.Openziti.Enroll.Files.{IsEnrolled, unwritten, run-eq-ok, run_loses_token}
use ziti_livekit_example.Examples.Surroundings.{plain, token_disk, first_world}

-- The options with which EnrollIfNeeded enrolls the publisher.
abbrev options : EnrollOptions
options = record {
  remove_jwt = false;
  key_alg = "RSA";
  jwt_path = "publisher.jwt";
  jwt_string = "";
  output_path = "";
  key_path = "";
  cert_path = "";
  id_name = "";
  ca_override = "";
  username = "";
  password = "";
  verbose = false;
}

enrolls : run plain options first_world ≡ (ok "", (run plain options first_world).1)
unfolding run run_path run_string read_token os_stat file_error read_file resolve_output_path
    out_path_from_jwt has_suffix trim_space is_space wrap enroll_token write_identity create_file
    encode_file remove_file not_written ◌>>=◌
enrolls = refl

run-eq-ok_example :
    (out : String) × (conf : String) × (text : String) × (resolve_output_path options ≡ ok out)
    × IsEnrolled plain options
        (or_empty (read_file plain options.jwt_path first_world).0)
        first_world
        conf
    × (ok conf ≡ ok text)
    × ((run plain options first_world).1.disk.contents out ≡ some text)
run-eq-ok_example = run-eq-ok plain options first_world refl enrolls

-- A disk whose files can be created, and takes a part of what is written.
abbrev full_disk : Disk
full_disk = record token_disk {
  fault = λ op path. elim op [ write ↦ some (reason "no space left on device") | _ ↦ none ];
  partial = λ path text. "{";
}

abbrev full_world : World plain
full_world = record first_world { disk = full_disk }

reads_token : read_token plain options full_world ≡ (ok ("jwt", "publisher.json"), full_world)
unfolding read_token os_stat file_error read_file resolve_output_path out_path_from_jwt has_suffix
    trim_space is_space wrap ◌>>=◌
reads_token = refl

gives_identity :
    enroll_token plain options "jwt" full_world
    ≡ (ok "jwt-enrolled", (enroll_token plain options "jwt" full_world).1)
unfolding enroll_token wrap ◌>>=◌
gives_identity = refl

run_loses_token_example :
    ((run plain options full_world).0
      ≡ err (unwritten "publisher.json" (reason "no space left on device")))
    × ((run plain options full_world).1.disk.contents "publisher.json" ≡ some "{")
    × ((run plain options full_world).1.disk.contents "publisher.jwt" ≡ none)
run_loses_token_example =
    run_loses_token plain options full_world refl reads_token gives_identity refl refl refl refl
      refl
