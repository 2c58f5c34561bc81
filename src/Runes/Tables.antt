-- ===== src/Runes/Tables.antt =====
-- src/sync/stages/index/indexers/custom/runes/tables.rs: the keys and values of the runes tables.
-- `RuneId` is a type of the ordinals crate with the fields `block` and `tx`.
use maestro_symphony.Prelude.{ℕ, ◌++◌, List, Option, Bytes, ok, ◌>>=◌}
use maestro_symphony.Codec.{Codec}
use maestro_symphony.Encdec.Instances.{
  array, u8, u16, u32, u64, u128, option, bytes_codec, vec, pair, unit,
}
use maestro_symphony.Table.{Table, indexer_table}
use maestro_symphony.Core.{runes, unique_id, TxoRef, txo_ref}

pub record RuneId : Type 0 where
  pub block : ℕ
  pub tx : ℕ

abbrev pub rune_id : Codec RuneId
rune_id = record {
  encode = λ i. u64.encode i.block ++ u32.encode i.tx;
  decode = λ bytes. (do
    (block, rest) ← u64.decode bytes
    (tx, rest') ← u32.decode rest
    ok (record { block = block; tx = tx }, rest'));
}

pub record RuneTerms : Type 0 where
  pub amount : Option ℕ
  pub cap : Option ℕ
  pub start_height : Option ℕ
  pub end_height : Option ℕ

abbrev pub rune_terms : Codec RuneTerms
rune_terms = record {
  encode = λ t.
      (option u128).encode t.amount
      ++ ((option u128).encode t.cap
          ++ ((option u64).encode t.start_height ++ (option u64).encode t.end_height));
  decode = λ bytes. (do
    (amount, rest) ← (option u128).decode bytes
    (cap, rest') ← (option u128).decode rest
    (start_height, rest'') ← (option u64).decode rest'
    (end_height, rest''') ← (option u64).decode rest''
    ok (
      record { amount = amount; cap = cap; start_height = start_height; end_height = end_height },
      rest''',
    ));
}

pub record RuneInfo : Type 0 where
  pub name : ℕ
  pub terms : Option RuneTerms
  pub symbol : Option ℕ
  pub divisibility : ℕ
  pub etching_height : ℕ
  pub etching_tx : Bytes
  pub premine : ℕ
  pub spacers : ℕ

abbrev pub rune_info : Codec RuneInfo
rune_info = record {
  encode = λ i.
      u128.encode i.name
      ++ ((option rune_terms).encode i.terms
          ++ ((option u32).encode i.symbol
              ++ (u8.encode i.divisibility
                  ++ (u64.encode i.etching_height
                      ++ ((array 32).encode i.etching_tx
                          ++ (u128.encode i.premine ++ u32.encode i.spacers))))));
  decode = λ bytes. (do
    (name, r1) ← u128.decode bytes
    (terms, r2) ← (option rune_terms).decode r1
    (symbol, r3) ← (option u32).decode r2
    (divisibility, r4) ← u8.decode r3
    (etching_height, r5) ← u64.decode r4
    (etching_tx, r6) ← (array 32).decode r5
    (premine, r7) ← u128.decode r6
    (spacers, r8) ← u32.decode r7
    ok (
      record {
        name = name;
        terms = terms;
        symbol = symbol;
        divisibility = divisibility;
        etching_height = etching_height;
        etching_tx = etching_tx;
        premine = premine;
        spacers = spacers;
      },
      r8,
    ));
}

-- `RunesTables` numbers the tables.
abbrev pub rune_info_by_id_kv : Table RuneId RuneInfo
rune_info_by_id_kv = indexer_table (unique_id runes) 0 rune_id rune_info

abbrev pub rune_id_by_name_kv : Table ℕ RuneId
rune_id_by_name_kv = indexer_table (unique_id runes) 1 u128 rune_id

abbrev pub rune_mints_by_id_kv : Table RuneId ℕ
rune_mints_by_id_kv = indexer_table (unique_id runes) 2 rune_id u128

pub record RuneUtxosByScriptKey : Type 0 where
  pub script : Bytes
  pub produced_height : ℕ
  pub txo_ref : TxoRef

abbrev pub rune_utxos_by_script_key : Codec RuneUtxosByScriptKey
rune_utxos_by_script_key = record {
  encode = λ k.
      bytes_codec.encode k.script ++ (u64.encode k.produced_height ++ txo_ref.encode k.txo_ref);
  decode = λ bytes. (do
    (script, rest) ← bytes_codec.decode bytes
    (produced_height, rest') ← u64.decode rest
    (r, rest'') ← txo_ref.decode rest'
    ok (record { script = script; produced_height = produced_height; txo_ref = r }, rest''));
}

abbrev pub rune_utxos_by_script_kv : Table RuneUtxosByScriptKey (Unit {0})
rune_utxos_by_script_kv = indexer_table (unique_id runes) 3 rune_utxos_by_script_key unit

pub record RuneActivityByTxKey : Type 0 where
  pub tx_hash : Bytes
  pub seq : ℕ

abbrev pub rune_activity_by_tx_key : Codec RuneActivityByTxKey
rune_activity_by_tx_key = record {
  encode = λ k. (array 32).encode k.tx_hash ++ u16.encode k.seq;
  decode = λ bytes. (do
    (tx_hash, rest) ← (array 32).decode bytes
    (seq, rest') ← u16.decode rest
    ok (record { tx_hash = tx_hash; seq = seq }, rest'));
}

pub record RuneBalanceChange : Type 0 where
  pub rune_id : RuneId
  pub script : Bytes
  pub sent : ℕ
  pub received : ℕ
  pub output_index : Option ℕ

abbrev pub rune_balance_change : Codec RuneBalanceChange
rune_balance_change = record {
  encode = λ c.
      rune_id.encode c.rune_id
      ++ (bytes_codec.encode c.script
          ++ (u128.encode c.sent
              ++ (u128.encode c.received ++ (option u32).encode c.output_index)));
  decode = λ bytes. (do
    (id, r1) ← rune_id.decode bytes
    (script, r2) ← bytes_codec.decode r1
    (sent, r3) ← u128.decode r2
    (received, r4) ← u128.decode r3
    (output_index, r5) ← (option u32).decode r4
    ok (
      record {
        rune_id = id;
        script = script;
        sent = sent;
        received = received;
        output_index = output_index;
      },
      r5,
    ));
}

abbrev pub rune_activity_by_tx_kv : Table RuneActivityByTxKey RuneBalanceChange
rune_activity_by_tx_kv =
    indexer_table (unique_id runes) 4 rune_activity_by_tx_key rune_balance_change

abbrev pub UtxoRunes : Type 0
UtxoRunes = List (RuneId × ℕ)

abbrev pub utxo_runes : Codec UtxoRunes
utxo_runes = vec (pair rune_id u128)
