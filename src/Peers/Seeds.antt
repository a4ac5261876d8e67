-- ===== src/Peers/Seeds.antt =====
-- That p2p/peer/table.go keeps the seeds that became peers.
use blockchain.Common.{
  ℕ, ◌≡◌, refl, sym, ap, ◌∙◌, arith, Bool, true, false, Option, some, none, Bytes, List, [], ◌∷◌,
  All, equal, equal_iff, if◌then◌else◌, Bool-cases, Option-cases, inl, inr,
}
use blockchain.Chain.Maps.{Map, load, store, delete, load-store, load-delete}
use blockchain.Peers.State.{
  Peer, PState, new_pstate, is_time_to_ping, is_time_to_get_neighbours, is_to_remove, do_ping,
  update_active_time, update_get_neighbour_time,
}
use blockchain.Peers.Table.{
  Table, is_there, add, add_peers, change_passing, get_peers_to_ping, get_peers_to_get_neighbours,
  recv_ping, recv_pong, drop_peers, refresh, Operation, adding, pinging, asking, refreshing, ping,
  pong, operate, run,
}
use blockchain.Peers.Maps.{IsMap-load}
use blockchain.Peers.Keeping.{IsWell, AreKeyed, operate-IsWell}

module _ (id : Bytes) where
  -- A seed stands under the id.
  abbrev pub HasSeed : Map PState → Type 0
  HasSeed m = (s : PState) × (load id m ≡ some s) × (s.is_seed ≡ true)

  store-HasSeed :
      (k : Bytes) (s : PState) (m : Map PState)
      → (k ≡ id → s.is_seed ≡ true)
      → HasSeed m
      → HasSeed (store k s m)
  store-HasSeed k s m f (s0, e, seed) = elim (Bool-cases (equal k id)) [
    | inl same ↦ (s, load-store k id s m ∙ rw same, f ((equal_iff k id).0 same))
    | inr other ↦ (s0, load-store k id s m ∙ rw other e, seed)
  ]

  if-HasSeed :
      (b : Bool) (t u : Table)
      → HasSeed t.peers
      → HasSeed u.peers
      → HasSeed (if b then t else u).peers
  if-HasSeed true t u w v = w
  if-HasSeed false t u w v = v

  add-HasSeed : (pst : PState) (t : Table) → HasSeed t.peers → HasSeed (add pst t).peers
  unfolding add
  add-HasSeed pst t (s0, e, seed) =
      let old : HasSeed t.peers = (s0, e, seed) in
      if-HasSeed (is_there (load pst.peer.id t.cooling_peers)) t _ old (
        if-HasSeed (equal pst.peer.id t.self_id) t _ old
          (elim (Option-cases (load pst.peer.id t.peers)) [
            | inr (x, there) ↦ rw there old
            | inl missing ↦ rw missing (
                store-HasSeed pst.peer.id pst t.peers
                  (λ same. absurd (
                    let no : none ≡ some s0 = sym missing ∙ ap (λ k. load k t.peers) same ∙ e in
                    cc))
                  old)
          ]))

  change_passing-HasSeed :
      (test : PState → Bool) (change : PState → PState) (m : Map PState)
      → ((s : PState) → (change s).is_seed ≡ s.is_seed)
      → HasSeed m
      → HasSeed (change_passing test change m)
  unfolding change_passing load
  change_passing-HasSeed test change [] same h = h
  change_passing-HasSeed test change ((k, s) ∷ m) same (s0, e, seed) =
      elim (Bool-cases (equal k id)) [
        | inl own ↦
            let e1 : (let x : Option PState = some s in x) ≡ some s0 = rw own at e in
            let e2 : s ≡ s0 = cc in
            let seed' : s.is_seed ≡ true = ap (λ (x : PState). x.is_seed) e2 ∙ seed in
            rw own (elim (Bool-cases (test s)) [
              | inl passes ↦ rw passes (change s, refl, same s ∙ seed')
              | inr fails ↦ rw fails (s, refl, seed')
            ])
        | inr other ↦
            rw other (change_passing-HasSeed test change m same (s0, (rw other at e), seed))
      ]

  -- Each state that stands under the id is a seed.
  abbrev AreSeeds : Map PState → Type 0
  AreSeeds = All λ (k, s). s.peer.id ≡ id → s.is_seed ≡ true

  drop_peers-HasSeed :
      (now : ℕ) (es m : Map PState) → AreSeeds es → HasSeed m → HasSeed (drop_peers now es m)
  unfolding drop_peers is_to_remove
  drop_peers-HasSeed now [] m fs h = h
  drop_peers-HasSeed now ((k, s) ∷ es) m (f, fs) (s0, e, seed) =
      elim (Bool-cases (is_to_remove now s)) [
        | inr fresh ↦ rw fresh (drop_peers-HasSeed now es m fs (s0, e, seed))
        | inl old ↦ elim (Bool-cases (equal s.peer.id id)) [
          | inl same ↦
              absurd
                (let g : s.is_seed ≡ true = f ((equal_iff s.peer.id id).0 same) in ground arith)
          | inr other ↦ rw old (
              drop_peers-HasSeed now es (delete s.peer.id m) fs
                (s0, load-delete s.peer.id id m ∙ rw other e, seed))
        ]
      ]

  entries-AreSeeds :
      (self : Bytes) (m es : Map PState)
      → HasSeed m
      → AreKeyed self es
      → All (λ (k, s). load k m ≡ some s) es
      → AreSeeds es
  entries-AreSeeds self m [] h ks ls = tt
  entries-AreSeeds self m ((k, s) ∷ es) (s0, e, seed) ((own, ne), ks) (l, ls) = (
    λ same.
        let both : (let x : Option PState = some s in x) ≡ some s0 =
          sym l ∙ ap (λ j. load j m) (own ∙ same) ∙ e in
        let e2 : s ≡ s0 = cc in ap (λ (x : PState). x.is_seed) e2 ∙ seed,
    entries-AreSeeds self m es (s0, e, seed) ks ls,
  )

  add_peers-HasSeed :
      (address : Peer → Bytes) (ps : List Peer) (is_seed : Bool) (t : Table)
      → HasSeed t.peers
      → HasSeed (add_peers address ps is_seed t).peers
  unfolding add_peers
  add_peers-HasSeed address [] is_seed t h = h
  add_peers-HasSeed address (p ∷ ps) true t h = add_peers-HasSeed address ps true _ h
  add_peers-HasSeed address (p ∷ ps) false t h =
      add_peers-HasSeed address ps false (add (new_pstate p false) t)
        (add-HasSeed (new_pstate p false) t h)

  recv_pong-HasSeed :
      (address : Peer → Bytes) (now : ℕ) (p : Peer) (t : Table)
      → HasSeed t.peers
      → HasSeed (recv_pong address now p t).peers
  unfolding recv_pong
  recv_pong-HasSeed address now p t (s0, e0, seed) = elim (Option-cases (load p.id t.peers)) [
    | inr (s, e) ↦
        rw (e, recv_pong)
          (store-HasSeed p.id (update_active_time now s) t.peers
            (λ same.
              let both : (let x : Option PState = some s in x) ≡ some s0 =
                sym e ∙ ap (λ j. load j t.peers) same ∙ e0 in
              let e2 : s ≡ s0 = cc in ap (λ (x : PState). x.is_seed) e2 ∙ seed)
            (s0, e0, seed))
    | inl e ↦ elim (Bool-cases (is_there (load (address p) t.seeds))) [
      | inr unknown ↦ rw (e, unknown, recv_pong) (s0, e0, seed)
      | inl known ↦
          rw (e, known, recv_pong)
            (add-HasSeed (update_active_time now (new_pstate p true)) t (s0, e0, seed))
    ]
  ]

  module _ (self : Bytes) (address : Peer → Bytes) where
    operate-HasSeed :
        (now : ℕ) (op : Operation) (t : Table)
        → IsWell self t
        → HasSeed t.peers
        → HasSeed (operate address now op t).peers
    unfolding operate get_peers_to_ping get_peers_to_get_neighbours recv_ping refresh
    operate-HasSeed now (adding ps is_seed) t w h = add_peers-HasSeed address ps is_seed t h
    operate-HasSeed now pinging t w h =
        change_passing-HasSeed (is_time_to_ping now) do_ping t.peers (λ s. refl) h
    operate-HasSeed now asking t w h =
        change_passing-HasSeed (is_time_to_get_neighbours now) (update_get_neighbour_time now)
          t.peers (λ s. refl) h
    operate-HasSeed now refreshing t w h =
        drop_peers-HasSeed now t.peers t.peers
          (entries-AreSeeds self t.peers t.peers h w.keyed (IsMap-load t.peers w.distinct)) h
    operate-HasSeed now (ping p) t w h = if-HasSeed (is_there (load p.id t.peers)) t _ h (
        add-HasSeed (new_pstate p false) (record t { cooling_peers = delete p.id t.cooling_peers })
          h)
    operate-HasSeed now (pong p) t w h = recv_pong-HasSeed address now p t h

    -- A seed that became a peer of a table with no peer twice or under another id stays a peer, and a
    -- seed, whatever happens to the table.
    pub run-HasSeed :
        (ops : List (ℕ × Operation)) (t : Table)
        → IsWell self t
        → HasSeed t.peers
        → HasSeed (run address ops t).peers
    unfolding run
    run-HasSeed [] t w h = h
    run-HasSeed ((now, op) ∷ ops) t w h =
        run-HasSeed ops (operate address now op t) (operate-IsWell self address now op t w)
          (operate-HasSeed now op t w h)
