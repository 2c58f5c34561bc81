-- ===== src/Core/Types.antt =====
-- src/sync/stages/mod.rs, src/error.rs, indexers/types.rs and indexers/custom/mod.rs.
use maestro_symphony.Prelude.{
  ℕ, ◌≡◌, ◌↔◌, arith, String, Bool, true, ◌&&◌, Bytes, Eq, eqb, list_beq, list_beq_iff, nat_eq, Map,
  Result, ok, err,
}
use maestro_symphony.Codec.{DecodingError}

-- A block by its height and the 32 bytes of its hash.
pub record Point : Type 0 where
  pub height : ℕ
  pub hash : Bytes

abbrev pub point_beq : Point → Point → Bool
point_beq p q = eqb p.height q.height && list_beq p.hash q.hash

pub point_beq_iff : (p q : Point) → (point_beq p q ≡ true) ↔ (p ≡ q)
point_beq_iff p q = ground (arith, list_beq_iff p.hash q.hash)

instance abbrev pub point_eq : Eq Point
point_eq = record { beq = point_beq; beq_iff = point_beq_iff }

pub record TxoRef : Type 0 where
  pub tx_hash : Bytes
  pub txo_index : ℕ

abbrev pub txo_ref_beq : TxoRef → TxoRef → Bool
txo_ref_beq p q = list_beq p.tx_hash q.tx_hash && eqb p.txo_index q.txo_index

pub txo_ref_beq_iff : (p q : TxoRef) → (txo_ref_beq p q ≡ true) ↔ (p ≡ q)
txo_ref_beq_iff p q = ground (arith, list_beq_iff p.tx_hash q.tx_hash)

instance abbrev pub txo_ref_eq : Eq TxoRef
txo_ref_eq = record { beq = txo_ref_beq; beq_iff = txo_ref_beq_iff }

pub data TransactionIndexer : Type 0 where
  tx_count_by_address runes utxos_by_address charms : TransactionIndexer

-- `*self as u16`
abbrev pub unique_id : TransactionIndexer → ℕ
unique_id tx_count_by_address = 0
unique_id runes = 1
unique_id utxos_by_address = 2
unique_id charms = 3

abbrev pub indexer_beq : TransactionIndexer → TransactionIndexer → Bool
indexer_beq a b = eqb (unique_id a) (unique_id b)

pub indexer_beq_iff : (a b : TransactionIndexer) → (indexer_beq a b ≡ true) ↔ (a ≡ b)
indexer_beq_iff a b = ground arith

instance abbrev pub indexer_eq : Eq TransactionIndexer
indexer_eq = record { beq = indexer_beq; beq_iff = indexer_beq_iff }

abbrev pub ExtendedUtxoData : Type 0
ExtendedUtxoData = Map TransactionIndexer Bytes

pub record Utxo : Type 0 where
  pub satoshis : ℕ
  pub script : Bytes
  pub height : ℕ
  pub extended : ExtendedUtxoData

-- `Error`, and the panics of the code as one more error.
pub data Error : Type 0 where
  decoding : DecodingError → Error
  rollback : Point → Error
  missing_utxo : TxoRef → Error
  panic : String → Error

-- `?` on a decoding.
abbrev pub lift_decoding : {A : Type 0} → Result DecodingError A → Result Error A
lift_decoding (ok a) = ok a
lift_decoding (err e) = err (decoding e)
