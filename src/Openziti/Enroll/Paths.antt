-- ===== src/Openziti/Enroll/Paths.antt =====
-- The output path that is inferred from a token's path.

use text.Mathlib.TextLemmas.{append_assoc}
use ziti_livekit_example.Prelude.{String, ◌<>◌, ◌≡◌, refl, false, arith, ◌==◌}
use ziti_livekit_example.Outcome.{Error, reason, ok, err}
use ziti_livekit_example.Text.{has_suffix, is_space, trim_left, trim_right, trim_space}
use ziti_livekit_example.Text.Trim.{
  has_suffix-append, has_suffix-append_ne, slice-suffix, trim_space-append, append-ne_of_len,
}
use ziti_livekit_example.Openziti.Enroll.{out_path_from_jwt}

-- A token file `stem.jwt` gives the identity file `stem.json`.
pub out_path_from_jwt-jwt :
    (stem : String) → out_path_from_jwt (stem <> ".jwt") ≡ ok (stem <> ".json")
unfolding out_path_from_jwt
out_path_from_jwt-jwt stem = rw (has_suffix-append stem ".jwt", slice-suffix stem ".jwt") refl

-- `stem.json` does not end in .jwt.
json-not_jwt : (stem : String) → has_suffix (stem <> ".json") ".jwt" ≡ false
json-not_jwt stem =
    rw (← append_assoc stem "." "json") (has_suffix-append_ne (stem <> ".") "json" ".jwt" refl refl)

-- The error for a token file whose name ends in .json.
abbrev json_error : Error
json_error =
    reason
      "unexpected configuration. cannot infer 'out' flag if the jwt file ends in .json. rename jwt file or provide the 'out' flag"

-- No path is inferred from a token file `stem.json`.
pub out_path_from_jwt-json : (stem : String) → out_path_from_jwt (stem <> ".json") ≡ err json_error
unfolding out_path_from_jwt
out_path_from_jwt-json stem = rw (json-not_jwt stem, has_suffix-append stem ".json") refl

-- The path inferred for a token file `stem.jwt` differs from it, spaces at the ends apart, so that
-- Run does not refuse it for being the same.
pub out_path_from_jwt-differs :
    (stem : String)
    → (out : String) × (out_path_from_jwt (stem <> ".jwt") ≡ ok out)
      × ((trim_space out == trim_space (stem <> ".jwt")) ≡ false)
unfolding is_space trim_right
out_path_from_jwt-differs stem = (stem <> ".json", out_path_from_jwt-jwt stem, differ)
  where
    json : trim_space (stem <> ".json") ≡ trim_left stem <> ".json"
    json = trim_space-append stem "." "json" refl refl

    jwt : trim_space (stem <> ".jwt") ≡ trim_left stem <> ".jwt"
    jwt = trim_space-append stem "." "jwt" refl refl

    differ : (trim_space (stem <> ".json") == trim_space (stem <> ".jwt")) ≡ false
    differ = rw (json, jwt) (append-ne_of_len (trim_left stem) ".json" ".jwt" (omega arith))
