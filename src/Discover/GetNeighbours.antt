-- ===== src/Discover/GetNeighbours.antt =====
-- serialize/discover/get_neighbours.go.
use blockchain.Common.{◌≡◌, ◌↔◌, Bytes, ◌++◌, append-nil, ok}
use blockchain.Wire.{IsBytes, Reader, ◌>>=◌, ret, put_slice8, read_slice8}
use blockchain.Wire.Reads.{Reads, Reads-bind, Reads-last, Reads-slice8}
use blockchain.Wire.Parses.{
  Parses, Emits, accepts_exactly, Below, Parses-bind, Parses-ret, Parses-slice8,
}
use blockchain.Common.Int.{ℤ}
use blockchain.Discover.{msg_get_neighbours}
use blockchain.Discover.Head
use blockchain.Discover.Head.{Head, new_head}

pub record GetNeighbours : Type 0 where
  pub head : Head
  pub pub_key : Bytes

unfoldable pub unmarshal : Reader GetNeighbours
unmarshal = do
  head ← Head.unmarshal
  pub_key ← read_slice8
  ret (record { head = head; pub_key = pub_key })

unfoldable pub marshal : GetNeighbours → Bytes
marshal g = Head.marshal g.head ++ (put_slice8 g.pub_key)

abbrev pub new_get_neighbours : ℤ → Bytes → GetNeighbours
new_get_neighbours now pub_key = record {
  head = new_head msg_get_neighbours now;
  pub_key = pub_key;
}

pub record Fits (g : GetNeighbours) : Type 0 where
  pub head_fits : Head.Fits g.head
  pub pub_key_fits : Below 256 g.pub_key

pub Reads-get_neighbours : (g : GetNeighbours) → Fits g → Reads unmarshal (marshal g) g
unfolding unmarshal marshal
Reads-get_neighbours g f =
    Reads-bind _ (Head.Reads-discover_head g.head f.head_fits)
      (Reads-last _ (Reads-slice8 g.pub_key f.pub_key_fits.1))

pub Parses-get_neighbours : Parses unmarshal (Emits marshal Fits)
unfolding unmarshal marshal
Parses-get_neighbours = Parses-bind _ _ (Head.Parses-discover_head) λ head head_fits.
    Parses-bind _ _ (Parses-slice8) λ pub_key pub_key_fits.
      Parses-ret (rw append-nil, record { head_fits = head_fits; pub_key_fits = pub_key_fits })

-- On any bytes, reading gives this request and leaves `rest` exactly when the bytes are
-- those marshalled for it, with `rest` behind them, and its fields are within their widths.
unmarshal_get_neighbours_iff :
    (src rest : Bytes) (g : GetNeighbours)
    → IsBytes src
    → (unmarshal src ≡ ok (g, rest)) ↔ ((src ≡ marshal g ++ rest) × Fits g)
unmarshal_get_neighbours_iff = accepts_exactly Reads-get_neighbours Parses-get_neighbours
