-- ===== src/Peers/Choice.antt =====
-- What `getPeers` of p2p/peer/table.go answers with.
use mathlib.Core.List.{Perm}
use mathlib.Core.List.Perm
use blockchain.Common.{
  ℕ, zero, suc, ◌<◌, ◌≤◌, ◌-◌, ◌≡◌, ◌⊎◌, refl, sym, ap, subst, ◌∙◌, arith, Bool, Option, some, none,
  Bytes, List, [], ◌∷◌, ◌++◌, append-nil, length, drop, take-append-drop, get_elem?, get_elem?_lt,
  leb, Bool-cases, Option-cases, inl, inr, length-take_of_le,
}
use blockchain.Chain.Maps.{Map, load}
use blockchain.Peers.State.{Peer, PState, peer_expired_time, is_available}
use blockchain.Peers.Table.{Table, candidates, set_at, swap, shuffle, get_peers}

-- The peer was active within 35 seconds and is not to be left out.
abbrev pub IsOpen : ℕ → Map Bool → PState → Type 0
IsOpen now exclude s =
    (now - s.last_active_time < peer_expired_time) × (load s.peer.id exclude ≡ none)

-- The peers of a map that are open, one for each entry.
pub data OpenPeers (now : ℕ) (exclude : Map Bool) : Map PState → List Peer → Type 0 where
  done : OpenPeers now exclude [] []
  taken :
      {k : Bytes} {s : PState} {m : Map PState} {ps : List Peer}
      → IsOpen now exclude s
      → OpenPeers now exclude m ps
      → OpenPeers now exclude ((k, s) ∷ m) (s.peer ∷ ps)
  left :
      {k : Bytes} {s : PState} {m : Map PState} {ps : List Peer}
      → ¬ IsOpen now exclude s
      → OpenPeers now exclude m ps
      → OpenPeers now exclude ((k, s) ∷ m) ps

-- The answer, with the peers that are left over, is the open peers in some order.
pub record IsChoice (now expect : ℕ) (exclude : Map Bool) (m : Map PState) (answer : List Peer)
    : Type 0 where
  pub open_peers : List Peer
  pub all_open : OpenPeers now exclude m open_peers
  pub rest : List Peer
  pub order : Perm (answer ++ rest) open_peers
  pub enough : (length answer ≡ expect) ⊎ ((rest ≡ []) × (length answer ≤ expect))

candidates-OpenPeers :
    (now : ℕ) (exclude : Map Bool) (m : Map PState)
    → OpenPeers now exclude m (candidates now exclude m)
unfolding candidates is_available
candidates-OpenPeers now exclude [] = done
candidates-OpenPeers now exclude ((k, s) ∷ m) =
    let more = candidates-OpenPeers now exclude m in
    elim (Option-cases (load s.peer.id exclude)) [
      | inr (b, e) ↦ rw e (left (λ is_open. cc) more)
      | inl e ↦ elim (Bool-cases (is_available now s)) [
        | inl on ↦ rw (e, on) (taken (ground arith, e) more)
        | inr off ↦ rw (e, off) (left (λ is_open. let lt = is_open.0 in ground arith) more)
      ]
    ]

length-set_at : (i : ℕ) (o : Option Peer) (xs : List Peer) → length (set_at i o xs) ≡ length xs
length-set_at i none xs = refl
length-set_at i (some p) [] = refl
length-set_at zero (some p) (x ∷ xs) = refl
length-set_at (suc i) (some p) (x ∷ xs) = ap suc (length-set_at i (some p) xs)

length-shuffle : (intn : ℕ → ℕ) (i : ℕ) (xs : List Peer) → length (shuffle intn i xs) ≡ length xs
unfolding shuffle
length-shuffle intn zero xs = refl
length-shuffle intn (suc i) xs =
    let ys = shuffle intn i xs in
    length-set_at (intn i) (get_elem? ys i) _
    ∙ length-set_at i (get_elem? ys (intn i)) ys
    ∙ length-shuffle intn i xs

-- A write trades the old element for the new one.
set_at_perm :
    (xs : List Peer) (i : ℕ) (old new : Peer)
    → get_elem? xs i ≡ some old
    → Perm (old ∷ set_at i (some new) xs) (new ∷ xs)
set_at_perm [] i old new e = cc
set_at_perm (x ∷ xs) zero old new e =
    let same : x ≡ old = cc in
    subst (λ y. Perm (y ∷ new ∷ xs) (new ∷ x ∷ xs)) same (Perm.swap new x xs)
set_at_perm (x ∷ xs) (suc i) old new e =
    Perm.trans (Perm.swap x old _)
      (Perm.trans (Perm.cons x (set_at_perm xs i old new e)) (Perm.swap new x xs))

-- The element at `j` after the element at `j` was written at `i`.
get_elem?-set_at :
    (xs : List Peer) (i j : ℕ) (q : Peer)
    → get_elem? xs j ≡ some q
    → get_elem? (set_at i (some q) xs) j ≡ some q
get_elem?-set_at [] i j q e = cc
get_elem?-set_at (x ∷ xs) zero zero q e = refl
get_elem?-set_at (x ∷ xs) zero (suc j) q e = e
get_elem?-set_at (x ∷ xs) (suc i) zero q e = e
get_elem?-set_at (x ∷ xs) (suc i) (suc j) q e = get_elem?-set_at xs i j q e

swap_perm : (xs : List Peer) (i j : ℕ) → i < length xs → j < length xs → Perm (swap i j xs) xs
swap_perm xs i j li lj =
    let (p, ep) = get_elem?_lt xs i li in
    let (q, eq) = get_elem?_lt xs j lj in
    let first = set_at_perm xs i p q ep in
    let second = set_at_perm (set_at i (some q) xs) j q p (get_elem?-set_at xs i j q eq) in
    rw (ep, eq) (Perm.cons_inv (Perm.trans second first))

shuffle_perm :
    (intn : ℕ → ℕ) (i : ℕ) (xs : List Peer)
    → ((k : ℕ) → intn k < length xs)
    → i ≤ length xs
    → Perm (shuffle intn i xs) xs
unfolding shuffle
shuffle_perm intn zero xs below le = Perm.refl xs
shuffle_perm intn (suc i) xs below le =
    let ys = shuffle intn i xs in
    let same = length-shuffle intn i xs in
    Perm.trans (swap_perm ys i (intn i) (omega (arith, same)) (omega (arith, same, below i)))
      (shuffle_perm intn i xs below (omega arith))

-- Where `r.Intn` gives numbers below its argument, `getPeers` answers with peers of the table that
-- were active within the last 35 seconds and are not among those to leave out, one for each entry of
-- the table at most: with as many as are expected, or with all of them where these are no more.
pub get_peers-IsChoice :
    (intn : ℕ → ℕ → ℕ) (now expect : ℕ) (exclude : Map Bool) (t : Table)
    → ((n k : ℕ) → 0 < n → intn n k < n)
    → IsChoice now expect exclude t.peers (get_peers intn now expect exclude t)
unfolding get_peers
get_peers-IsChoice intn now expect exclude t below =
    let cs = candidates now exclude t.peers in
    let n = length cs in
    elim (Bool-cases (leb n expect)) [
      | inl few ↦ rw few (record {
        open_peers = cs;
        all_open = candidates-OpenPeers now exclude t.peers;
        rest = [];
        order = subst (λ ps. Perm ps cs) (sym (append-nil cs)) (Perm.refl cs);
        enough = inr (refl, ground arith);
      })
      | inr many ↦
          let some_there : 0 < n = ground arith in
          let ys = shuffle (intn n) n cs in
          let perm = shuffle_perm (intn n) n cs (λ k. below n k some_there) (omega arith) in
          rw many (record {
            open_peers = cs;
            all_open = candidates-OpenPeers now exclude t.peers;
            rest = drop expect ys;
            order = subst (λ ps. Perm ps cs) (sym (take-append-drop expect ys)) perm;
            enough = inl (
                length-take_of_le expect ys (let e = length-shuffle (intn n) n cs in ground arith));
          })
    ]
