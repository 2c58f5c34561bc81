-- ===== src/Core/Transactions.antt =====
-- What the stages read of a block. `bitcoin::Transaction` is a third-party type: these are the
-- fields that the source uses, and each script's tests, which the library answers.
use maestro_symphony.Prelude.{ℕ, List, Bool, Bytes}
use maestro_symphony.Core.Types.{TxoRef}

pub record TxIn : Type 0 where
  pub previous_output : TxoRef
  pub is_null : Bool
  pub witness : List Bytes

pub record TxOut : Type 0 where
  pub value : ℕ
  pub script_pubkey : Bytes
  pub is_op_return : Bool

pub record Transaction : Type 0 where
  pub is_coinbase : Bool
  pub input : List TxIn
  pub output : List TxOut

pub record TransactionWithId : Type 0 where
  pub tx_id : Bytes
  pub tx : Transaction

abbrev pub BlockTxs : Type 0
BlockTxs = List TransactionWithId
