-- ===== src/Websocket/Url.antt =====
-- The host and the port that a websocket URL is dialled at.
pub mod Hosts
use Prim.Native.Char.{code, len_utf8}
use Prim.Native.String.{len, slice, [], ◌∷◌}
use ziti_livekit_example.Prelude.{ℕ, ◌+◌, ◌-◌, String, ◌<>◌, ◌==◌, ltb, eqb, if◌then◌else◌}
use ziti_livekit_example.Websocket.Types.{Url}

-- strings.LastIndex of a text of one character, plus one; 0 stands for its -1
unfoldable pub last_index : ℕ → ℕ → String → ℕ → ℕ
last_index c at [] found = found
last_index c at (d ∷ s) found =
    last_index c (at + len_utf8 d) s (if eqb (code d) c then at + 1 else found)

abbrev pub last_colon : String → ℕ
last_colon host = last_index b':' 0 host 0

abbrev pub last_bracket : String → ℕ
last_bracket host = last_index b']' 0 host 0

-- The port of a scheme.
unfoldable pub default_port : String → String
default_port scheme =
    if scheme == "wss" then ":443" else if scheme == "https" then ":443" else ":80"

-- hostPortNoPort
unfoldable pub host_port_no_port : Url → String × String
unfolding last_index default_port
host_port_no_port u =
    if ltb (last_bracket u.host) (last_colon u.host)
    then (u.host, slice u.host 0 (last_colon u.host - 1))
    else (u.host <> default_port u.scheme, u.host)
