-- ===== src/Peers/Table.antt =====
-- p2p/peer/table.go. The text "ip:port" of a peer, which is the key of a seed, is a parameter. A map is
-- ranged over in the order of its list, which may be any.
use blockchain.Common.{
  ℕ, zero, suc, ◌-◌, ◌*◌, Bool, true, false, not, ◌&&◌, Option, some, none, Bytes, List, [], ◌∷◌,
  ◌++◌, length, take, get_elem?, equal, ltb, leb, if◌then◌else◌,
}
use blockchain.Chain.Maps.{Map, load, store, delete}
use blockchain.Peers.State.{
  Peer, PState, second, new_pstate, is_time_to_ping, is_available, is_time_to_get_neighbours,
  is_to_remove, do_ping, update_active_time, update_get_neighbour_time,
}

abbrev pub cooling_expired_time : ℕ
cooling_expired_time = 300 * second

pub record Table : Type 0 where
  pub self_id : Bytes
  pub seeds : Map PState
  pub peers : Map PState
  pub cooling_peers : Map ℕ

abbrev pub new_table : Bytes → Table
new_table self_id = record { self_id = self_id; seeds = []; peers = []; cooling_peers = [] }

abbrev pub is_there {ℓ} : {A : Type ℓ} → Option A → Bool
is_there none = false
is_there (some a) = true

-- `add`, on a table that is locked.
unfoldable pub add : PState → Table → Table
unfolding load store equal
add pst t =
    if is_there (load pst.peer.id t.cooling_peers)
    then t
    else if equal pst.peer.id t.self_id
    then t
    else if is_there (load pst.peer.id t.peers)
    then t
    else record t { peers = store pst.peer.id pst t.peers }

unfoldable pub add_peers : (Peer → Bytes) → List Peer → Bool → Table → Table
unfolding add store
add_peers address [] is_seed t = t
add_peers address (p ∷ ps) is_seed t = add_peers address ps is_seed (
    if is_seed
    then record t { seeds = store (address p) (new_pstate p true) t.seeds }
    else add (new_pstate p false) t)

-- The loop of `getPeers`.
unfoldable pub candidates : ℕ → Map Bool → Map PState → List Peer
unfolding load is_available
candidates now exclude [] = []
candidates now exclude ((k, s) ∷ m) =
    let rest = candidates now exclude m in
    if not (is_there (load s.peer.id exclude)) && is_available now s then s.peer ∷ rest else rest

abbrev pub set_at : ℕ → Option Peer → List Peer → List Peer
set_at i none xs = xs
set_at i (some p) [] = []
set_at zero (some p) (x ∷ xs) = p ∷ xs
set_at (suc i) (some p) (x ∷ xs) = x ∷ set_at i (some p) xs

-- `peers[i], peers[j] = peers[j], peers[i]`
abbrev pub swap : ℕ → ℕ → List Peer → List Peer
swap i j xs = set_at j (get_elem? xs i) (set_at i (get_elem? xs j) xs)

-- The exchanges, one for each place: `intn` has the numbers that `r.Intn` gives for the size.
unfoldable pub shuffle : (ℕ → ℕ) → ℕ → List Peer → List Peer
shuffle intn zero xs = xs
shuffle intn (suc i) xs = swap i (intn i) (shuffle intn i xs)

unfoldable pub get_peers : (ℕ → ℕ → ℕ) → ℕ → ℕ → Map Bool → Table → List Peer
unfolding candidates shuffle
get_peers intn now expect exclude t =
    let peers = candidates now exclude t.peers in
    if leb (length peers) expect
    then peers
    else take expect (shuffle (intn (length peers)) (length peers) peers)

unfoldable pub exists : Bytes → Table → Bool
unfolding load
exists id t = is_there (load id t.peers)

-- A loop that changes the states that pass a test, and answers their peers.
unfoldable pub passing : (PState → Bool) → Map PState → List Peer
passing test [] = []
passing test ((k, s) ∷ m) = let rest = passing test m in if test s then s.peer ∷ rest else rest

unfoldable pub change_passing : (PState → Bool) → (PState → PState) → Map PState → Map PState
change_passing test change [] = []
change_passing test change ((k, s) ∷ m) =
    (k, if test s then change s else s) ∷ change_passing test change m

unfoldable pub seed_peers : Map PState → List Peer
seed_peers [] = []
seed_peers ((k, s) ∷ m) = s.peer ∷ seed_peers m

unfoldable pub get_peers_to_ping : ℕ → Table → List Peer × Table
unfolding passing change_passing seed_peers is_time_to_ping
get_peers_to_ping now t = (
  passing (is_time_to_ping now) t.peers ++ seed_peers t.seeds,
  record t { peers = change_passing (is_time_to_ping now) do_ping t.peers },
)

unfoldable pub get_peers_to_get_neighbours : ℕ → Table → List Peer × Table
unfolding passing change_passing is_time_to_get_neighbours
get_peers_to_get_neighbours now t = (
  passing (is_time_to_get_neighbours now) t.peers,
  record t {
    peers = change_passing (is_time_to_get_neighbours now) (update_get_neighbour_time now) t.peers;
  },
)

unfoldable pub recv_ping : Peer → Table → Table
unfolding add load delete
recv_ping p t =
    if is_there (load p.id t.peers)
    then t
    else add (new_pstate p false) (record t { cooling_peers = delete p.id t.cooling_peers })

-- A seed that answered becomes a peer.
abbrev pub seed_answered : (Peer → Bytes) → ℕ → Peer → Table → Table
seed_answered address now p t =
    let t' = add (update_active_time now (new_pstate p true)) t in
    record t' { seeds = delete (address p) t'.seeds }

unfoldable pub recv_pong : (Peer → Bytes) → ℕ → Peer → Table → Table
unfolding add load store delete
recv_pong address now p t = elim (load p.id t.peers) [
  | some s ↦ record t { peers = store p.id (update_active_time now s) t.peers }
  | none ↦ if is_there (load (address p) t.seeds) then seed_answered address now p t else t
]

-- The loops of `refresh`: each entry that has had its time is deleted from the map.
unfoldable pub drop_peers : ℕ → Map PState → Map PState → Map PState
unfolding is_to_remove delete
drop_peers now [] m = m
drop_peers now ((k, s) ∷ es) m =
    drop_peers now es (if is_to_remove now s then delete s.peer.id m else m)

unfoldable pub drop_cooling : ℕ → Map ℕ → Map ℕ → Map ℕ
unfolding delete
drop_cooling now [] m = m
drop_cooling now ((k, v) ∷ es) m =
    drop_cooling now es (if ltb cooling_expired_time (now - v) then delete k m else m)

unfoldable pub refresh : ℕ → Table → Table
unfolding drop_peers drop_cooling
refresh now t = record t {
  peers = drop_peers now t.peers t.peers;
  cooling_peers = drop_cooling now t.cooling_peers t.cooling_peers;
}

-- The operations that change a table, and runs of them with their times.
pub data Operation : Type 0 where
  adding : List Peer → Bool → Operation
  pinging asking refreshing : Operation
  ping pong : Peer → Operation

unfoldable pub operate : (Peer → Bytes) → ℕ → Operation → Table → Table
unfolding add_peers get_peers_to_ping get_peers_to_get_neighbours recv_ping recv_pong refresh
operate address now (adding ps is_seed) t = add_peers address ps is_seed t
operate address now pinging t = (get_peers_to_ping now t).1
operate address now asking t = (get_peers_to_get_neighbours now t).1
operate address now refreshing t = refresh now t
operate address now (ping p) t = recv_ping p t
operate address now (pong p) t = recv_pong address now p t

unfoldable pub run : (Peer → Bytes) → List (ℕ × Operation) → Table → Table
unfolding operate
run address [] t = t
run address ((now, op) ∷ ops) t = run address ops (operate address now op t)
