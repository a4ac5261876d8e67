-- ===== src/Core/Asking.antt =====
-- What `syncRequest` of core/net.go asks the peers for.
use blockchain.Common.{
  ℕ, ◌≡◌, ◌⊎◌, ◌↔◌, refl, sym, ap, ◌∙◌, arith, Bool, true, false, ◌&&◌, Bytes, List, [], ◌∷◌, ◌++◌,
  map, append-nil, append_assoc, All, All-map, equal, equal_iff, ◌==◌, Bool-cases, inl, inr,
}
use blockchain.Cp.SyncResponse.{SyncResponse, is_uptodate}
use blockchain.Cp.BlockRequest
use blockchain.Cp.BlockRequest.{new_block_request}
use blockchain.Chain.Maps.{Map}
use blockchain.Core.Net.{PeerData, WaitingBlocks, Net, send}
use blockchain.Core.Loop.{Flag, is_queried, request_blocks, request_each}

-- No flag is in the first list, or twice in the second.
abbrev pub AreNew : List Flag → List Flag → Type 0
AreNew queried [] = Unit {0}
AreNew queried (f ∷ fs) = (is_queried f queried ≡ false) × AreNew (f ∷ queried) fs

abbrev pub flag : Bytes × SyncResponse → Flag
flag (peer, r) = (r.end, r.height_diff)

-- The request for the blocks of a response, and the entry that waits for them.
abbrev pub request : Bool → Bytes × SyncResponse → PeerData
request light (peer, r) = record {
  peer = peer;
  packet = BlockRequest.marshal (new_block_request r.base r.end light);
}

abbrev pub entry : ℕ → Bytes × SyncResponse → WaitingBlocks
entry now (peer, r) = record {
  peer_id = peer;
  last_response_time = now;
  remain_nums = r.height_diff;
  response = [];
}

abbrev pub asked_of : ℕ → Map SyncResponse → Net → Net
asked_of now asked n = record n {
  send_q = n.send_q ++ map (request n.light_node) asked;
  waiting_blocks = n.waiting_blocks ++ map (entry now) asked;
}

-- Some of the responses in their order, of which none says that it is up to date.
pub data Picked : Map SyncResponse → Map SyncResponse → Type 0 where
  done : Picked [] []
  left :
      {x : Bytes × SyncResponse} {asked rs : Map SyncResponse}
      → Picked asked rs
      → Picked asked (x ∷ rs)
  taken :
      {peer : Bytes} {r : SyncResponse} {asked rs : Map SyncResponse}
      → is_uptodate r ≡ false
      → Picked asked rs
      → Picked ((peer, r) ∷ asked) ((peer, r) ∷ rs)

-- The response says up to date, or its flag is in one of the lists.
abbrev pub IsAnswered : List Flag → List Flag → Bytes × SyncResponse → Type 0
IsAnswered queried fs (peer, r) =
    (is_uptodate r ≡ true)
    ⊎ (is_queried (flag (peer, r)) queried ≡ true)
    ⊎ (is_queried (flag (peer, r)) fs ≡ true)

pub record Asks (now : ℕ) (rs : Map SyncResponse) (queried : List Flag) (n : Net) : Type 0 where
  pub asked : Map SyncResponse
  pub from : Picked asked rs
  pub state : (request_each now rs queried n).1 ≡ asked_of now asked n
  pub new : AreNew queried (map flag asked)
  pub all : All (IsAnswered queried (map flag asked)) rs
  -- Whether all said up to date.
  pub uptodate :
      ((request_each now rs queried n).0 ≡ true) ↔ All (λ (peer, r). is_uptodate r ≡ true) rs

asked_of-nil : (now : ℕ) (n : Net) → n ≡ asked_of now [] n
asked_of-nil now n =
    ap (λ (q : List PeerData). record n { send_q = q }) (sym (append-nil n.send_q))
    ∙ ap (λ (ws : List WaitingBlocks). record n { send_q = n.send_q ++ []; waiting_blocks = ws })
        (sym (append-nil n.waiting_blocks))

asked_of-cons :
    (now : ℕ) (peer : Bytes) (r : SyncResponse) (asked : Map SyncResponse) (n : Net)
    → asked_of now asked (request_blocks now peer r n) ≡ asked_of now ((peer, r) ∷ asked) n
unfolding request_blocks send
asked_of-cons now peer r asked n =
    let q =
      append_assoc n.send_q (request n.light_node (peer, r) ∷ [])
        (map (request n.light_node) asked) in
    let ws = append_assoc n.waiting_blocks (entry now (peer, r) ∷ []) (map (entry now) asked) in
    ap
      (λ (x : List PeerData). record n {
        send_q = x;
        waiting_blocks = (n.waiting_blocks ++ (entry now (peer, r) ∷ [])) ++ map (entry now) asked;
      })
      q
    ∙ ap
        (λ (x : List WaitingBlocks). record n {
          send_q = n.send_q ++ map (request n.light_node) ((peer, r) ∷ asked);
          waiting_blocks = x;
        })
        ws

is_queried-own : (f : Flag) (fs : List Flag) → is_queried f (f ∷ fs) ≡ true
unfolding is_queried
is_queried-own (end, diff) fs =
    let d : (diff == diff) ≡ true = ground arith in rw ((equal_iff end end).1 refl, d)

now_in :
    (f : Flag) (queried fs : List Flag) (x : Bytes × SyncResponse)
    → IsAnswered (f ∷ queried) fs x
    → IsAnswered queried (f ∷ fs) x
unfolding is_queried
now_in (end, diff) queried fs (peer, r) (inl e) = inl e
now_in (end, diff) queried fs (peer, r) (inr (inl e)) =
    elim (Bool-cases (equal end r.end && diff == r.height_diff)) [
      | inl same ↦ inr (inr (rw same))
      | inr other ↦ inr (inl (rw other at e))
    ]
now_in (end, diff) queried fs (peer, r) (inr (inr e)) = inr (
    inr (elim (Bool-cases (equal end r.end && diff == r.height_diff)) [
      | inl same ↦ rw same
      | inr other ↦ rw other e
    ]))

-- Some of the responses that peers gave, in their order, are answered by a request to their peer from
-- their base to their end, each with an entry that waits for as many blocks as they say, and nothing
-- else is sent: none of these says up to date, no two are for the same end and number of blocks, and
-- for every other response that does not say up to date there is one with its end and number. The loop
-- finds all up to date exactly when every response says so.
pub request_each-Asks :
    (now : ℕ) (rs : Map SyncResponse) (queried : List Flag) (n : Net) → Asks now rs queried n
unfolding request_each
request_each-Asks now [] queried n = record {
  asked = [];
  from = done;
  state = asked_of-nil now n;
  new = tt;
  all = tt;
  uptodate = (λ e. tt, λ u. refl);
}
request_each-Asks now ((peer, r) ∷ rs) queried n =
    let f = flag (peer, r) in
    elim (Bool-cases (is_uptodate r)) [
      | inl uptodate ↦
          let rest = request_each-Asks now rs queried n in
          record {
            asked = rest.asked;
            from = left rest.from;
            state = rw uptodate rest.state;
            new = rest.new;
            all = (inl uptodate, rest.all);
            uptodate = rw uptodate (λ e. (refl, rest.uptodate.0 e), λ u. rest.uptodate.1 u.1);
          }
      | inr old ↦ elim (Bool-cases (is_queried f queried)) [
        | inl again ↦
            let rest = request_each-Asks now rs queried n in
            record {
              asked = rest.asked;
              from = left rest.from;
              state = rw (old, again) rest.state;
              new = rest.new;
              all = (inr (inl again), rest.all);
              uptodate = rw (old, again) (λ e. cc, λ u. cc);
            }
        | inr fresh ↦
            let rest = request_each-Asks now rs (f ∷ queried) (request_blocks now peer r n) in
            record {
              asked = (peer, r) ∷ rest.asked;
              from = taken old rest.from;
              state = rw (old, fresh) (rest.state ∙ asked_of-cons now peer r rest.asked n);
              new = (fresh, rest.new);
              all = (
                inr (inr (is_queried-own f (map flag rest.asked))),
                All-map _ _ rs (now_in f queried (map flag rest.asked)) rest.all,
              );
              uptodate = rw (old, fresh) (λ e. cc, λ u. cc);
            }
      ]
    ]
