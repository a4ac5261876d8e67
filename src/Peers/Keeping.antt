-- ===== src/Peers/Keeping.antt =====
-- What the operations of p2p/peer/table.go keep of a table.
use blockchain.Common.{
  ℕ, ◌≡◌, ◌≢◌, refl, sym, ap, ◌∙◌, Bool, true, false, Option, some, none, Bytes, List, [], ◌∷◌, All,
  equal, equal_iff, if◌then◌else◌, Bool-cases, Option-cases, inl, inr,
}
use blockchain.Chain.Maps.{Map, load, delete}
use blockchain.Peers.State.{
  Peer, PState, new_pstate, is_time_to_ping, is_time_to_get_neighbours, is_to_remove, do_ping,
  update_active_time, update_get_neighbour_time,
}
use blockchain.Peers.Table.{
  Table, new_table, is_there, add, add_peers, change_passing, get_peers_to_ping,
  get_peers_to_get_neighbours, recv_ping, recv_pong, drop_peers, drop_cooling, refresh, Operation,
  adding, pinging, asking, refreshing, ping, pong, operate, run,
}
use blockchain.Peers.Maps.{IsMap, store-IsMap, delete-IsMap, store-All, delete-All, load-All}

module _ (self : Bytes) where
  -- A peer stands under its own id, which is not the node's.
  abbrev pub IsKeyed : Bytes → PState → Type 0
  IsKeyed k s = (k ≡ s.peer.id) × (k ≢ self)

  abbrev pub AreKeyed : Map PState → Type 0
  AreKeyed = All λ (k, s). IsKeyed k s

  -- No peer stands twice, or is the node itself; none is cooling.
  pub record IsWell (t : Table) : Type 0 where
    pub own : t.self_id ≡ self
    pub distinct : IsMap t.peers
    pub keyed : AreKeyed t.peers
    pub none_cooling : t.cooling_peers ≡ []

  if-IsWell : (b : Bool) (t u : Table) → IsWell t → IsWell u → IsWell (if b then t else u)
  if-IsWell true t u w v = w
  if-IsWell false t u w v = v

  add-IsWell : (pst : PState) (t : Table) → IsWell t → IsWell (add pst t)
  unfolding add load
  add-IsWell pst t w =
      let warm : is_there (load pst.peer.id t.cooling_peers) ≡ false =
        ap (λ (m : Map ℕ). is_there (load pst.peer.id m)) w.none_cooling in
      elim (Bool-cases (equal pst.peer.id t.self_id)) [
        | inl same ↦ rw (warm, same) w
        | inr other ↦
            rw (warm, other)
              (if-IsWell (is_there (load pst.peer.id t.peers)) t _ w (record {
                own = w.own;
                distinct = store-IsMap pst.peer.id pst t.peers w.distinct;
                keyed =
                    store-All IsKeyed pst.peer.id pst t.peers
                      (
                        refl,
                        λ e.
                            let k : equal pst.peer.id t.self_id ≡ true =
                              (equal_iff pst.peer.id t.self_id).1 (e ∙ sym w.own) in
                            cc,
                      )
                      w.keyed;
                none_cooling = w.none_cooling;
              }))
      ]

  add_peers-IsWell :
      (address : Peer → Bytes) (ps : List Peer) (is_seed : Bool) (t : Table)
      → IsWell t
      → IsWell (add_peers address ps is_seed t)
  unfolding add_peers
  add_peers-IsWell address [] is_seed t w = w
  add_peers-IsWell address (p ∷ ps) true t w = add_peers-IsWell address ps true _ (record {
    own = w.own;
    distinct = w.distinct;
    keyed = w.keyed;
    none_cooling = w.none_cooling;
  })
  add_peers-IsWell address (p ∷ ps) false t w =
      add_peers-IsWell address ps false (add (new_pstate p false) t)
        (add-IsWell (new_pstate p false) t w)

  load-change_passing :
      (k : Bytes) (test : PState → Bool) (change : PState → PState) (m : Map PState)
      → load k m ≡ none
      → load k (change_passing test change m) ≡ none
  unfolding load change_passing
  load-change_passing k test change [] e = e
  load-change_passing k test change ((j, s) ∷ m) e = elim (Bool-cases (equal j k)) [
    | inl same ↦ absurd (let no : (let x : Option PState = some s in x) ≡ none = rw same at e in cc)
    | inr other ↦ rw other (load-change_passing k test change m (rw other at e))
  ]

  change_passing-IsMap :
      (test : PState → Bool) (change : PState → PState) (m : Map PState)
      → IsMap m
      → IsMap (change_passing test change m)
  unfolding change_passing
  change_passing-IsMap test change [] d = d
  change_passing-IsMap test change ((k, s) ∷ m) (new, d) =
      (load-change_passing k test change m new, change_passing-IsMap test change m d)

  change_passing-AreKeyed :
      (test : PState → Bool) (change : PState → PState) (m : Map PState)
      → ((s : PState) → (change s).peer.id ≡ s.peer.id)
      → AreKeyed m
      → AreKeyed (change_passing test change m)
  unfolding change_passing
  change_passing-AreKeyed test change [] same ks = ks
  change_passing-AreKeyed test change ((k, s) ∷ m) same ((e, ne), ks) = (
    (
      elim (Bool-cases (test s)) [
        | inl passes ↦ rw passes (e ∙ sym (same s))
        | inr fails ↦ rw fails e
      ],
      ne,
    ),
    change_passing-AreKeyed test change m same ks,
  )

  changed-IsWell :
      (test : PState → Bool) (change : PState → PState) (t : Table)
      → ((s : PState) → (change s).peer.id ≡ s.peer.id)
      → IsWell t
      → IsWell (record t { peers = change_passing test change t.peers })
  changed-IsWell test change t same w = record {
    own = w.own;
    distinct = change_passing-IsMap test change t.peers w.distinct;
    keyed = change_passing-AreKeyed test change t.peers same w.keyed;
    none_cooling = w.none_cooling;
  }

  recv_ping-IsWell : (p : Peer) (t : Table) → IsWell t → IsWell (recv_ping p t)
  unfolding recv_ping delete
  recv_ping-IsWell p t w = if-IsWell (is_there (load p.id t.peers)) t _ w (
      add-IsWell (new_pstate p false) (record t { cooling_peers = delete p.id t.cooling_peers })
        (record {
          own = w.own;
          distinct = w.distinct;
          keyed = w.keyed;
          none_cooling = ap (delete p.id) w.none_cooling;
        }))

  recv_pong-IsWell :
      (address : Peer → Bytes) (now : ℕ) (p : Peer) (t : Table)
      → IsWell t
      → IsWell (recv_pong address now p t)
  unfolding recv_pong
  recv_pong-IsWell address now p t w = elim (Option-cases (load p.id t.peers)) [
    | inr (s, e) ↦
        rw (e, recv_pong)
          (let (k, ne) = load-All IsKeyed p.id s t.peers e w.keyed in
            record {
              own = w.own;
              distinct = store-IsMap p.id (update_active_time now s) t.peers w.distinct;
              keyed = store-All IsKeyed p.id (update_active_time now s) t.peers (k, ne) w.keyed;
              none_cooling = w.none_cooling;
            })
    | inl e ↦ elim (Bool-cases (is_there (load (address p) t.seeds))) [
      | inr unknown ↦ rw (e, unknown, recv_pong) w
      | inl seed ↦
          rw (e, seed, recv_pong)
            (let w' = add-IsWell (update_active_time now (new_pstate p true)) t w in
              record {
                own = w'.own;
                distinct = w'.distinct;
                keyed = w'.keyed;
                none_cooling = w'.none_cooling;
              })
    ]
  ]

  drop_peers-AreKeyed :
      (now : ℕ) (es m : Map PState)
      → IsMap m × AreKeyed m
      → IsMap (drop_peers now es m) × AreKeyed (drop_peers now es m)
  unfolding drop_peers
  drop_peers-AreKeyed now [] m w = w
  drop_peers-AreKeyed now ((k, s) ∷ es) m (d, ks) = elim (Bool-cases (is_to_remove now s)) [
    | inl old ↦ rw old (
        drop_peers-AreKeyed now es (delete s.peer.id m)
          (delete-IsMap s.peer.id m d, delete-All IsKeyed s.peer.id m ks))
    | inr fresh ↦ rw fresh (drop_peers-AreKeyed now es m (d, ks))
  ]

  refresh-IsWell : (now : ℕ) (t : Table) → IsWell t → IsWell (refresh now t)
  unfolding refresh drop_cooling
  refresh-IsWell now t w =
      let (d, ks) = drop_peers-AreKeyed now t.peers t.peers (w.distinct, w.keyed) in
      record {
        own = w.own;
        distinct = d;
        keyed = ks;
        none_cooling = ap (λ (m : Map ℕ). drop_cooling now m m) w.none_cooling;
      }

  pub operate-IsWell :
      (address : Peer → Bytes) (now : ℕ) (op : Operation) (t : Table)
      → IsWell t
      → IsWell (operate address now op t)
  unfolding operate get_peers_to_ping get_peers_to_get_neighbours
  operate-IsWell address now (adding ps is_seed) t w = add_peers-IsWell address ps is_seed t w
  operate-IsWell address now pinging t w =
      changed-IsWell (is_time_to_ping now) do_ping t (λ s. refl) w
  operate-IsWell address now asking t w =
      changed-IsWell (is_time_to_get_neighbours now) (update_get_neighbour_time now) t (λ s. refl) w
  operate-IsWell address now refreshing t w = refresh-IsWell now t w
  operate-IsWell address now (ping p) t w = recv_ping-IsWell p t w
  operate-IsWell address now (pong p) t w = recv_pong-IsWell address now p t w

  run-kept :
      (address : Peer → Bytes) (ops : List (ℕ × Operation)) (t : Table)
      → IsWell t
      → IsWell (run address ops t)
  unfolding run
  run-kept address [] t w = w
  run-kept address ((now, op) ∷ ops) t w =
      run-kept address ops (operate address now op t) (operate-IsWell address now op t w)

  -- However a new table is used, no peer stands in it twice or under another id than its own, the node
  -- itself is not among its peers, and no peer is ever cooling.
  pub run-IsWell :
      (address : Peer → Bytes) (ops : List (ℕ × Operation))
      → IsWell (run address ops (new_table self))
  run-IsWell address ops =
      run-kept address ops (new_table self)
        (record { own = refl; distinct = tt; keyed = tt; none_cooling = refl })
