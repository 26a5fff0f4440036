-- ===== src/Ice/Types.antt =====
-- The data of the ICE agent of lib/pion-ice, as far as the gathering of relay candidates uses it, and
-- what that takes from the TURN, TLS and DTLS libraries.
use ziti_livekit_example.Prelude.{ℕ, String, Bool, Option, List, ◌⊎◌}
use ziti_livekit_example.Outcome.{Error}
use ziti_livekit_example.Openziti.Platform.{Platform}
use ziti_livekit_example.Stdnet.{ZitiPacketConn, Net}

-- stun.SchemeType and stun.ProtoType
pub data Scheme : Type 0 where
  stun stuns turn turns unknown_scheme : Scheme

pub data Proto : Type 0 where
  udp tcp unknown_proto : Proto

-- A stun.URI
pub record Uri : Type 0 where
  pub scheme : Scheme
  pub host : String
  pub port : ℕ
  pub username : String
  pub password : String
  pub proto : Proto

-- CandidateType
pub data CandidateType : Type 0 where
  unspecified host server_reflexive peer_reflexive relay : CandidateType

-- NetworkType
pub data NetworkType : Type 0 where
  udp4 udp6 tcp4 tcp6 : NetworkType

-- GatheringState, but for its zero value
pub data GatheringState : Type 0 where
  new gathering complete : GatheringState

module _ (p : Platform) (Conn : Type 0) where
  -- The connection to a TURN server: of stdnet, a turn.STUNConn, or a fakenet.PacketConn.
  pub data LocConn : Type 0 where
    ziti : ZitiPacketConn p → LocConn
    stun_conn : Conn → LocConn
    fake_conn : Conn → LocConn

  -- turn.ClientConfig, without the loggers and the net
  pub record ClientConfig : Type 0 where
    pub turn_server_addr : String
    pub conn : LocConn
    pub username : String
    pub password : String

-- What the agent takes from Go's libraries and pion's. A call gives an error or its value. `refused`
-- is the error of the agent's loop, once it has ended or the context of a task is done. Addresses are
-- resolved and dialled by Go's `net`, which stdnet passes those calls on to.
pub record Libs (p : Platform) : Type 1 where
  pub Conn : Type 0
  pub Client : Type 0
  pub RelayConn : Type 0
  pub Ip : Type 0
  -- fmt.Sprintf("%s:%d", host, port)
  pub host_port : String → ℕ → String
  pub parse_ip : String → Option Ip
  pub is_ipv4 : Ip → Bool
  pub resolve_tcp_addr : String → String → Error ⊎ String
  pub resolve_udp_addr : String → String → Error ⊎ String
  pub dial_tcp : String → String → p.Net → (Error ⊎ Conn) × p.Net
  pub dial_udp : String → String → p.Net → (Error ⊎ Conn) × p.Net
  pub dtls_client : Conn → String → Bool → p.Net → (Error ⊎ Conn) × p.Net
  pub tls_client : Conn → String → Bool → Conn
  pub handshake : Conn → p.Net → (Error ⊎ Unit {0}) × p.Net
  pub local_addr : Conn → String × ℕ
  pub close_conn : Conn → p.Net → p.Net
  pub new_client : ClientConfig p Conn → p.Net → (Error ⊎ Client) × p.Net
  pub listen : Client → p.Net → (Error ⊎ Unit {0}) × p.Net
  pub allocate : Client → p.Net → (Error ⊎ RelayConn) × p.Net
  pub close_client : Client → p.Net → p.Net
  pub relay_addr : RelayConn → String × ℕ
  pub close_relay : RelayConn → p.Net → p.Net
  pub refused : p.Net → Option Error

module _ {p : Platform} where
  -- CandidateRelayConfig; `on_close` is what its function closes, the client and then the connection.
  -- The identifier, the priority and the foundation are left out: they are not given.
  pub record CandidateRelayConfig (lib : Libs p) : Type 0 where
    pub network : String
    pub address : String
    pub port : ℕ
    pub component : ℕ
    pub rel_addr : String
    pub rel_port : ℕ
    pub relay_protocol : String
    pub on_close : lib.Client × LocConn p lib.Conn

  -- CandidateRelay, and of its base what is set here; `conn` is set when it is started.
  pub record CandidateRelay (lib : Libs p) : Type 0 where
    pub network_type : NetworkType
    pub address : String
    pub port : ℕ
    pub component : ℕ
    pub related_address : String × ℕ
    pub relay_protocol : String
    pub on_close : lib.Client × LocConn p lib.Conn
    pub conn : Option lib.RelayConn

-- How many connections to TURN servers, clients and relayed connections are open.
pub record Tally : Type 0 where
  pub conns : ℕ
  pub clients : ℕ
  pub relays : ℕ

module _ {p : Platform} where
  -- An Agent, over stdnet's Net. `local_candidates` are those of all its network types, in the order in
  -- which they were added; `notified` is what was put into the notifier's queue, none for nil.
  pub record Agent (lib : Libs p) : Type 0 where
    pub net : Net p
    pub gathering_state : GatheringState
    pub has_candidate_hdlr : Bool
    pub routines : ℕ
    pub local_candidates : List (CandidateRelay lib)
    pub notified : List (Option (CandidateRelay lib))
    pub tally : Tally

  -- What the agent was configured with.
  pub record Config (lib : Libs p) : Type 0 where
    pub proxy_dialer : Option (String → String → p.Net → (Error ⊎ lib.Conn) × p.Net)
    pub insecure_skip_verify : Bool
    pub urls : List Uri
    pub candidate_types : List CandidateType
