-- ===== src/Cp/BlockBroadcast.antt =====
-- serialize/cp/block_broadcast.go. The block is never nil after `UnmarshalBlockBroadcast`, and is
-- taken as a value, without the test for nil.
use blockchain.Common.{◌≡◌, ◌↔◌, Bytes, ◌++◌, append-nil, ◌==◌, Result, ok, ◌>>◌, guard}
use blockchain.Wire.{IsBytes, Reader, ◌>>=◌, ret}
use blockchain.Wire.Reads.{Reads, Reads-bind, Reads-last}
use blockchain.Wire.Parses.{Parses, Emits, accepts_exactly, Parses-bind, Parses-ret}
use blockchain.Cp.{
  core_protocol_v1, Btcec, VerifyError, invalid_version, invalid_type, invalid_block,
  msg_block_broadcast,
}
use blockchain.Cp.Head
use blockchain.Cp.Head.{Head, new_head}
use blockchain.Cp.Block
use blockchain.Cp.Block.{Block, wrap, verify_each}

pub record BlockBroadcast : Type 0 where
  pub head : Head
  pub block : Block

unfoldable pub unmarshal : Reader BlockBroadcast
unmarshal = do
  head ← Head.unmarshal
  block ← Block.unmarshal
  ret (record { head = head; block = block })

unfoldable pub marshal : BlockBroadcast → Bytes
marshal b = Head.marshal b.head ++ (Block.marshal b.block)

abbrev pub new_block_broadcast : Block → BlockBroadcast
new_block_broadcast block = record { head = new_head msg_block_broadcast; block = block }

unfoldable pub verify : (Bytes → Bytes) → Btcec → BlockBroadcast → Result VerifyError (Unit {0})
verify hash ec b =
    guard (b.head.version == core_protocol_v1) invalid_version
    >> guard (b.head.type == msg_block_broadcast) invalid_type
    >> wrap invalid_block (Block.verify hash ec b.block)

pub record Fits (b : BlockBroadcast) : Type 0 where
  pub head_fits : Head.Fits b.head
  pub block_fits : Block.Fits b.block

pub Reads-block_broadcast : (b : BlockBroadcast) → Fits b → Reads unmarshal (marshal b) b
unfolding unmarshal marshal
Reads-block_broadcast b f =
    Reads-bind _ (Head.Reads-head b.head f.head_fits)
      (Reads-last _ (Block.Reads-block b.block f.block_fits))

pub Parses-block_broadcast : Parses unmarshal (Emits marshal Fits)
unfolding unmarshal marshal
Parses-block_broadcast = Parses-bind _ _ (Head.Parses-head) λ head head_fits.
    Parses-bind _ _ (Block.Parses-block) λ block block_fits.
      Parses-ret (rw append-nil, record { head_fits = head_fits; block_fits = block_fits })

-- On any bytes, reading gives this broadcast and leaves `rest` exactly when the bytes are
-- those marshalled for it, with `rest` behind them, and its fields are within their widths.
pub unmarshal_block_broadcast_iff :
    (src rest : Bytes) (b : BlockBroadcast)
    → IsBytes src
    → (unmarshal src ≡ ok (b, rest)) ↔ ((src ≡ marshal b ++ rest) × Fits b)
unmarshal_block_broadcast_iff = accepts_exactly Reads-block_broadcast Parses-block_broadcast
