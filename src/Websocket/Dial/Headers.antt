-- ===== src/Websocket/Dial/Headers.antt =====
-- The request of the handshake: its own headers, and those that the caller gives.
use ziti_livekit_example.Prelude.{
  String, ◌==◌, ◌<>◌, Bool, true, false, ◌&&◌, ◌||◌, not, Option, none, some, List, [], ◌∷◌,
  if◌then◌else◌,
}
use ziti_livekit_example.Outcome.{reason, Result, ok, err, panic}
use ziti_livekit_example.Websocket.Types.{Header, Request}

-- header[key] = values
unfoldable pub set_header : String → List String → Header → Header
set_header key values [] = (key, values) ∷ []
set_header key values ((k, vs) ∷ header) =
    let rest = set_header key values header in
    if k == key then (key, values) ∷ header else (k, vs) ∷ rest

unfoldable pub get_header : String → Header → Option (List String)
get_header key [] = none
get_header key ((k, vs) ∷ header) =
    let rest = get_header key header in if k == key then some vs else rest

-- strings.Join of subprotocols
unfoldable pub join_protocols : List String → String
join_protocols [] = ""
join_protocols (t ∷ []) = t
join_protocols (t ∷ u ∷ ts) = t <> (", " <> join_protocols (u ∷ ts))

abbrev pub is_empty : List String → Bool
is_empty [] = true
is_empty (t ∷ ts) = false

-- The headers that DialContext sets itself.
unfoldable pub upgrade_headers : String → List String → Header → Header
unfolding set_header join_protocols
upgrade_headers challenge_key subprotocols header =
    let own = set_header "Sec-WebSocket-Version" ("13" ∷ []) (
      set_header "Sec-WebSocket-Key" (challenge_key ∷ []) (
        set_header "Connection" ("Upgrade" ∷ [])
          (set_header "Upgrade" ("websocket" ∷ []) header))) in
    if is_empty subprotocols
    then own
    else set_header "Sec-WebSocket-Protocol" (join_protocols subprotocols ∷ []) own

-- A key that the caller may not give.
unfoldable pub is_reserved : List String → String → Bool
is_reserved subprotocols k =
    k == "Upgrade"
    || k == "Connection"
    || k == "Sec-Websocket-Key"
    || k == "Sec-Websocket-Version"
    || k == "Sec-Websocket-Extensions"
    || (k == "Sec-Websocket-Protocol" && not (is_empty subprotocols))

abbrev pub host_of : List String → String → String
host_of [] host = host
host_of (v ∷ vs) host = v

-- What a key of the caller's headers does to the request.
unfoldable pub put_header : List String → String → List String → Request → Result Request
unfolding is_reserved set_header
put_header subprotocols k vs req =
    if k == "Host"
    then ok (record req { host = host_of vs req.host })
    else if is_reserved subprotocols k
    then err (reason ("websocket: duplicate header not allowed: " <> k))
    else if k == "Sec-Websocket-Protocol"
    then ok (record req { header = set_header "Sec-WebSocket-Protocol" vs req.header })
    else ok (record req { header = set_header k vs req.header })

-- The rest of a function, behind `if err != nil { return nil, nil, err }`.
unfoldable pub put_on : {A B : Type 0} → (A → Result B) → Result A → Result B
put_on f (ok a) = f a
put_on f (err e) = err e
put_on f (panic t) = panic t

-- The loop over the caller's headers.
unfoldable pub put_headers : List String → Header → Request → Result Request
unfolding put_header put_on
put_headers subprotocols [] req = ok req
put_headers subprotocols ((k, vs) ∷ header) req =
    put_on (put_headers subprotocols header) (put_header subprotocols k vs req)

-- The header that offers compression.
unfoldable pub offer_compression : Bool → Request → Request
unfolding set_header
offer_compression false req = req
offer_compression true req = record req {
  header =
      set_header "Sec-WebSocket-Extensions"
        ("permessage-deflate; server_no_context_takeover; client_no_context_takeover" ∷ [])
        req.header;
}
