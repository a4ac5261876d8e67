-- ===== src/Peers/State.antt =====
-- p2p/peer: peer.go's `Peer`, and pstate.go. Times are nanoseconds since 1970; a clock that went back
-- gives a negative difference in Go and 0 here, which all tests tell alike from what they ask for.
use blockchain.Common.{ℕ, ◌-◌, ◌*◌, Bool, true, false, not, ◌&&◌, Option, Bytes, ltb, leb}

-- The key is the compressed form of the public key, where it is known.
pub record Peer : Type 0 where
  pub ip : Bytes
  pub port : ℕ
  pub key : Option Bytes
  pub id : Bytes

abbrev pub second : ℕ
second = 1_000_000_000

abbrev pub peer_expired_time : ℕ
peer_expired_time = 35 * second

abbrev pub get_neighbour_interval : ℕ
get_neighbour_interval = 15 * second

abbrev pub ping_interval : ℕ
ping_interval = 10 * second

pub record PState : Type 0 where
  pub peer : Peer
  pub is_seed : Bool
  pub has_ping_before : Bool
  pub last_active_time : ℕ
  pub last_get_neighbour_time : ℕ

abbrev pub new_pstate : Peer → Bool → PState
new_pstate p is_seed = record {
  peer = p;
  is_seed = is_seed;
  has_ping_before = false;
  last_active_time = 0;
  last_get_neighbour_time = 0;
}

unfoldable pub is_time_to_ping : ℕ → PState → Bool
is_time_to_ping now p = leb ping_interval (now - p.last_active_time)

unfoldable pub is_available : ℕ → PState → Bool
is_available now p = ltb (now - p.last_active_time) peer_expired_time

unfoldable pub is_time_to_get_neighbours : ℕ → PState → Bool
is_time_to_get_neighbours now p = leb get_neighbour_interval (now - p.last_get_neighbour_time)

unfoldable pub is_to_remove : ℕ → PState → Bool
unfolding is_available
is_to_remove now p = not (is_available now p) && (p.has_ping_before && not p.is_seed)

abbrev pub do_ping : PState → PState
do_ping p = record p { has_ping_before = true }

abbrev pub update_active_time : ℕ → PState → PState
update_active_time now p = record p { last_active_time = now }

abbrev pub update_get_neighbour_time : ℕ → PState → PState
update_get_neighbour_time now p = record p { last_get_neighbour_time = now }
