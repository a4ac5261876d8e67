-- ===== src/Discover/Ping.antt =====
-- serialize/discover/ping.go.
use blockchain.Common.{◌≡◌, ◌↔◌, Bytes, ◌++◌, append-nil, ok}
use blockchain.Wire.{IsBytes, Reader, ◌>>=◌, ret, put_slice8, read_slice8}
use blockchain.Wire.Reads.{Reads, Reads-bind, Reads-last, Reads-slice8}
use blockchain.Wire.Parses.{
  Parses, Emits, accepts_exactly, Below, Parses-bind, Parses-ret, Parses-slice8,
}
use blockchain.Common.Int.{ℤ}
use blockchain.Discover.{msg_ping}
use blockchain.Discover.Head
use blockchain.Discover.Head.{Head, new_head}

pub record Ping : Type 0 where
  pub head : Head
  pub pub_key : Bytes

unfoldable pub unmarshal : Reader Ping
unmarshal = do
  head ← Head.unmarshal
  pub_key ← read_slice8
  ret (record { head = head; pub_key = pub_key })

unfoldable pub marshal : Ping → Bytes
marshal p = Head.marshal p.head ++ (put_slice8 p.pub_key)

abbrev pub new_ping : ℤ → Bytes → Ping
new_ping now pub_key = record { head = new_head msg_ping now; pub_key = pub_key }

pub record Fits (p : Ping) : Type 0 where
  pub head_fits : Head.Fits p.head
  pub pub_key_fits : Below 256 p.pub_key

pub Reads-ping : (p : Ping) → Fits p → Reads unmarshal (marshal p) p
unfolding unmarshal marshal
Reads-ping p f =
    Reads-bind _ (Head.Reads-discover_head p.head f.head_fits)
      (Reads-last _ (Reads-slice8 p.pub_key f.pub_key_fits.1))

pub Parses-ping : Parses unmarshal (Emits marshal Fits)
unfolding unmarshal marshal
Parses-ping = Parses-bind _ _ (Head.Parses-discover_head) λ head head_fits.
    Parses-bind _ _ (Parses-slice8) λ pub_key pub_key_fits.
      Parses-ret (rw append-nil, record { head_fits = head_fits; pub_key_fits = pub_key_fits })

-- On any bytes, reading gives this ping and leaves `rest` exactly when the bytes are
-- those marshalled for it, with `rest` behind them, and its fields are within their widths.
unmarshal_ping_iff :
    (src rest : Bytes) (p : Ping)
    → IsBytes src
    → (unmarshal src ≡ ok (p, rest)) ↔ ((src ≡ marshal p ++ rest) × Fits p)
unmarshal_ping_iff = accepts_exactly Reads-ping Parses-ping
