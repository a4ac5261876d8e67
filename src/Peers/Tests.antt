-- ===== src/Peers/Tests.antt =====
-- Runs of the theorems on the table of p2p/peer.
use blockchain.Common.{ℕ, ◌-◌, arith, ◌*◌, refl, true, false, none, Bytes, List, [], ◌∷◌, equal}
use blockchain.Chain.Maps.{load, store}
use blockchain.Peers.State.{Peer, second}
use blockchain.Peers.Table.{
  Table, new_table, get_peers, Operation, adding, pinging, refreshing, ping, pong, run,
}
use blockchain.Peers.Keeping.{IsWell, run-IsWell}
use blockchain.Peers.Choice.{IsChoice, get_peers-IsChoice}
use blockchain.Peers.Seeds.{HasSeed, run-HasSeed}

abbrev self : Bytes
self = 83 ∷ []

abbrev peer : ℕ → Peer
peer n = record { ip = 10 ∷ 0 ∷ 0 ∷ n ∷ []; port = 23_580; key = none; id = n ∷ [] }

abbrev address : Peer → Bytes
address p = p.ip

-- A seed and a peer are added; the seed answers, and a third peer pings.
abbrev operations : List (ℕ × Operation)
operations =
    (1 * second, adding (peer 1 ∷ []) true)
    ∷ (2 * second, adding (peer 2 ∷ peer 83 ∷ []) false)
    ∷ (3 * second, pinging)
    ∷ (4 * second, pong (peer 1))
    ∷ (5 * second, ping (peer 3))
    ∷ []

abbrev table : Table
table = run address operations (new_table self)

run-IsWell_example : IsWell self table
run-IsWell_example = run-IsWell self address operations

table-IsWell : IsWell self table
table-IsWell = run-IsWell self address operations

get_peers-IsChoice_example :
    IsChoice (30 * second) 1 [] table.peers (get_peers (λ n k. n - 1) (30 * second) 1 [] table)
get_peers-IsChoice_example =
    get_peers-IsChoice (λ n k. n - 1) (30 * second) 1 [] table (λ n k lt. omega arith)

abbrev later : List (ℕ × Operation)
later = (90 * second, pinging) ∷ (200 * second, refreshing) ∷ []

run-HasSeed_example : HasSeed (1 ∷ []) (run address later table).peers
unfolding run load store equal
run-HasSeed_example = run-HasSeed (1 ∷ []) self address later table table-IsWell (_, refl, refl)
