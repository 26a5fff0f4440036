-- ===== src/Websocket.antt =====
-- lib/websocket/client.go and ziti.go: the websocket library, whose dialer was made to connect through the
-- transport that lib/openziti gives it.
pub mod Types
pub mod Url
pub mod Dialers
pub mod Upgrade
pub mod Dial
