-- ===== src/Cp/EvidenceBroadcast.antt =====
-- serialize/cp/evidence_broadcast.go. `binary.Write` of the head's struct writes its three fields
-- in order, which are the bytes of `Head.Marshal`.
use blockchain.Common.{
  ◌≡◌, ◌↔◌, refl, sym, ap, subst, Bool, true, false, not, Option, none, some, Bytes, List, [], ◌∷◌,
  ◌++◌, append-nil, ◌==◌, Result, ok, ◌>>◌, guard,
}
use blockchain.Wire.{IsBytes, Reader, ◌>>=◌, ret, put_list16, read_list16}
use blockchain.Wire.Reads.{Reads, Reads-bind, Reads-last, Reads-list16}
use blockchain.Wire.Parses.{
  Parses, Emits, accepts_exactly, IsList16, Parses-bind, Parses-ret, Parses-IsList16,
}
use blockchain.Cp.{
  core_protocol_v1, Btcec, VerifyError, invalid_version, invalid_type, invalid_evidence,
  nil_evidence, msg_evidence_broadcast,
}
use blockchain.Cp.Head
use blockchain.Cp.Head.{Head, new_head}
use blockchain.Cp.Block.{wrap, verify_each}
use blockchain.Cp.Evidence
use blockchain.Cp.Evidence.{Evidence}

-- `Verify` tests the slice for nil, so it is an option: `none` is a nil slice.
pub record EvidenceBroadcast : Type 0 where
  pub head : Head
  pub evds : Option (List Evidence)

-- A nil slice has no elements.
abbrev pub elements : Option (List Evidence) → List Evidence
elements none = []
elements (some es) = es

-- Appending one by one to a nil slice: it stays nil where nothing is appended.
abbrev pub appended : List Evidence → Option (List Evidence)
appended [] = none
appended (e ∷ es) = some (e ∷ es)

abbrev pub new_evidence_broadcast : Option (List Evidence) → EvidenceBroadcast
new_evidence_broadcast evds = record { head = new_head msg_evidence_broadcast; evds = evds }

unfoldable pub unmarshal : Reader EvidenceBroadcast
unmarshal = do
  head ← Head.unmarshal
  evds ← read_list16 Evidence.unmarshal
  ret (record { head = head; evds = appended evds })

unfoldable pub marshal : EvidenceBroadcast → Bytes
marshal e = Head.marshal e.head ++ put_list16 Evidence.marshal (elements e.evds)

abbrev is_nil : Option (List Evidence) → Bool
is_nil none = true
is_nil (some _) = false

unfoldable pub verify : (Bytes → Bytes) → Btcec → EvidenceBroadcast → Result VerifyError (Unit {0})
verify hash ec e =
    guard (e.head.version == core_protocol_v1) invalid_version
    >> guard (e.head.type == msg_evidence_broadcast) invalid_type
    >> guard (not (is_nil e.evds)) nil_evidence
    >> verify_each (λ x. wrap invalid_evidence (Evidence.verify hash ec x)) (elements e.evds)

-- An empty slice that is not nil does not come back from its bytes.
pub record Fits (e : EvidenceBroadcast) : Type 0 where
  pub head_fits : Head.Fits e.head
  pub evds_fits : IsList16 Evidence.Fits (elements e.evds)
  pub evds_read : e.evds ≡ appended (elements e.evds)

elements-appended : (es : List Evidence) → elements (appended es) ≡ es
elements-appended [] = refl
elements-appended (e ∷ es) = refl

pub Reads-evidence_broadcast : (e : EvidenceBroadcast) → Fits e → Reads unmarshal (marshal e) e
unfolding unmarshal marshal
Reads-evidence_broadcast e f =
    subst (Reads unmarshal (marshal e)) (ap (λ es. record e { evds = es }) (sym f.evds_read)) raw
  where
    raw : Reads unmarshal (marshal e) (record e { evds = appended (elements e.evds) })
    raw = Reads-bind _ (Head.Reads-head e.head f.head_fits) (
        Reads-last _
          (Reads-list16 Evidence.Reads-evidence (elements e.evds) f.evds_fits.0 f.evds_fits.1))

pub Parses-evidence_broadcast : Parses unmarshal (Emits marshal Fits)
unfolding unmarshal marshal
Parses-evidence_broadcast = Parses-bind _ _ Head.Parses-head λ head head_fits.
    Parses-bind _ _ (Parses-IsList16 Evidence.Parses-evidence) λ evds evds_fits. Parses-ret (
      rw (append-nil, elements-appended evds),
      record {
        head_fits = head_fits;
        evds_fits = rw (elements-appended evds) evds_fits;
        evds_read = rw (elements-appended evds);
      },
    )

-- On any bytes, reading gives this broadcast and leaves `rest` exactly when the bytes are those
-- marshalled for it, with `rest` behind them, its fields and counts are within their widths, and its
-- slice of evidence is nil if it is empty.
pub unmarshal_evidence_broadcast_iff :
    (src rest : Bytes) (e : EvidenceBroadcast)
    → IsBytes src
    → (unmarshal src ≡ ok (e, rest)) ↔ ((src ≡ marshal e ++ rest) × Fits e)
unmarshal_evidence_broadcast_iff =
    accepts_exactly Reads-evidence_broadcast Parses-evidence_broadcast
