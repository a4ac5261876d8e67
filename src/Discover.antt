-- ===== src/Discover.antt =====
-- serialize/discover: the messages of the discovery of nodes that carry no address. discover.go.
pub mod Head
pub mod Ping
pub mod Pong
pub mod GetNeighbours
mod Tests
use blockchain.Common.{ℕ}

abbrev pub discover_v1 : ℕ
discover_v1 = 1

abbrev pub msg_ping : ℕ
msg_ping = 1

abbrev pub msg_pong : ℕ
msg_pong = 2

abbrev pub msg_get_neighbours : ℕ
msg_get_neighbours = 3
