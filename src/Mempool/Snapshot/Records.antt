-- ===== src/Mempool/Snapshot/Records.antt =====
-- mempool.py, `_transaction_record` and `_transaction_from_record`: a record gives its transaction
-- back, with the addresses in lower case.
use junca_social_ecosystem_c.Common.{
  ◌≡◌, refl, All, IsByte, lower, lower_idem, from_hex-hex, nat_eq, list_eq, beq_refl, ok,
  find_field, field_names, Platform,
}
use junca_social_ecosystem_c.ProtocolKernel.Types.{TransactionEnvelope, transaction_hash}
use junca_social_ecosystem_c.Mempool.Snapshot.{
  transaction_record, decode_record, transaction_from_record,
}

-- The form in which a record keeps a transaction.
abbrev pub lowered : TransactionEnvelope → TransactionEnvelope
lowered tx = record tx { sender = lower tx.sender; recipient = lower tx.recipient }

-- The data and the signature are bytes.
pub record IsEncoded (tx : TransactionEnvelope) : Type 0 where
  pub payload : All IsByte tx.payload
  pub signature : All IsByte tx.signature

module _ (platform : Platform) where
  pub transaction_hash-lowered :
      (tx : TransactionEnvelope)
      → transaction_hash platform (lowered tx) ≡ transaction_hash platform tx
  unfolding transaction_hash
  transaction_hash-lowered tx = rw (lower_idem tx.sender, lower_idem tx.recipient) refl

  pub transaction_from_record-transaction_record :
      (tx : TransactionEnvelope)
      → IsEncoded tx
      → transaction_from_record platform (transaction_record platform tx) ≡ ok (lowered tx)
  unfolding transaction_from_record transaction_record decode_record find_field field_names
  transaction_from_record-transaction_record tx e =
      rw
        (
          from_hex-hex tx.payload e.payload,
          from_hex-hex tx.signature e.signature,
          transaction_hash-lowered tx,
          beq_refl (transaction_hash platform tx),
        )
        refl
