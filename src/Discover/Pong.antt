-- ===== src/Discover/Pong.antt =====
-- serialize/discover/pong.go.
use blockchain.Common.{◌≡◌, ◌↔◌, Bytes, ◌++◌, append-nil, ok}
use blockchain.Wire.{IsBytes, Reader, ◌>>=◌, ret, put_slice8, read_slice8}
use blockchain.Wire.Reads.{Reads, Reads-bind, Reads-last, Reads-slice8}
use blockchain.Wire.Parses.{
  Parses, Emits, accepts_exactly, Below, Parses-bind, Parses-ret, Parses-slice8,
}
use blockchain.Common.Int.{ℤ}
use blockchain.Discover.{msg_pong}
use blockchain.Discover.Head
use blockchain.Discover.Head.{Head, new_head}

pub record Pong : Type 0 where
  pub head : Head
  pub ping_hash : Bytes
  pub pub_key : Bytes

unfoldable pub unmarshal : Reader Pong
unmarshal = do
  head ← Head.unmarshal
  ping_hash ← read_slice8
  pub_key ← read_slice8
  ret (record { head = head; ping_hash = ping_hash; pub_key = pub_key })

unfoldable pub marshal : Pong → Bytes
marshal p = Head.marshal p.head ++ (put_slice8 p.ping_hash ++ (put_slice8 p.pub_key))

abbrev pub new_pong : ℤ → Bytes → Bytes → Pong
new_pong now ping_hash pub_key = record {
  head = new_head msg_pong now;
  ping_hash = ping_hash;
  pub_key = pub_key;
}

pub record Fits (p : Pong) : Type 0 where
  pub head_fits : Head.Fits p.head
  pub ping_hash_fits : Below 256 p.ping_hash
  pub pub_key_fits : Below 256 p.pub_key

pub Reads-pong : (p : Pong) → Fits p → Reads unmarshal (marshal p) p
unfolding unmarshal marshal
Reads-pong p f = Reads-bind _ (Head.Reads-discover_head p.head f.head_fits) (
    Reads-bind _ (Reads-slice8 p.ping_hash f.ping_hash_fits.1)
      (Reads-last _ (Reads-slice8 p.pub_key f.pub_key_fits.1)))

pub Parses-pong : Parses unmarshal (Emits marshal Fits)
unfolding unmarshal marshal
Parses-pong = Parses-bind _ _ (Head.Parses-discover_head) λ head head_fits.
    Parses-bind _ _ (Parses-slice8) λ ping_hash ping_hash_fits.
      Parses-bind _ _ (Parses-slice8) λ pub_key pub_key_fits. Parses-ret (
        rw append-nil,
        record {
          head_fits = head_fits;
          ping_hash_fits = ping_hash_fits;
          pub_key_fits = pub_key_fits;
        },
      )

-- On any bytes, reading gives this pong and leaves `rest` exactly when the bytes are
-- those marshalled for it, with `rest` behind them, and its fields are within their widths.
pub unmarshal_pong_iff :
    (src rest : Bytes) (p : Pong)
    → IsBytes src
    → (unmarshal src ≡ ok (p, rest)) ↔ ((src ≡ marshal p ++ rest) × Fits p)
unmarshal_pong_iff = accepts_exactly Reads-pong Parses-pong
