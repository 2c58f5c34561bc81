-- ===== src/Indexers/TxCount.antt =====
-- src/sync/stages/index/indexers/custom/tx_count_by_address.rs: one more transaction for every script
-- that a transaction spends from or pays to.
use maestro_symphony.Prelude.{
  ℕ, ◌≡◌, refl, ◌∙◌, ap, arith, List, [], ◌∷◌, map, Bool, false, ◌||◌, Bytes, Option, Option-cases,
  Result-cases, none, some, sym, subst, list_eq, list_beq, list_beq_iff, nat_eq, if◌then◌else◌,
  Result, ok, ◌>>=◌, bind-ok, ok-injective, Bool-cases, inl, inr,
}
use maestro_symphony.Codec.{ok_or}
use maestro_symphony.Encdec.Instances.{bytes_codec, u64}
use maestro_symphony.Table.{Table, indexer_table, encode_key}
use maestro_symphony.Core.{
  Error, missing_utxo, tx_count_by_address, unique_id, TxIn, TxOut, Transaction, TransactionWithId,
  Utxo,
}
use maestro_symphony.Merge.{increment}
use maestro_symphony.Store.{Db, IndexingTask, increment_by}
use maestro_symphony.Rollback.Recorded.{TaskOp, merge_op, run_op, run_ops}
use maestro_symphony.Worker.Resolve.{contains, insert_set}
use maestro_symphony.Worker.Context.{IndexingContext, resolve_input}
use maestro_symphony.Worker.Index.{ProcessTransaction}
use maestro_symphony.Worker.Traces.{WritesOnly}
use maestro_symphony.Indexers.Loop.{for_each}

abbrev pub tx_count_by_address_kv : Table Bytes ℕ
tx_count_by_address_kv = indexer_table (unique_id tx_count_by_address) 0 bytes_codec u64

unfoldable pub spent_scripts : IndexingContext → List TxIn → List Bytes → Result Error (List Bytes)
spent_scripts ctx [] seen = ok seen
spent_scripts ctx (i ∷ is) seen = do
  utxo ← ok_or (resolve_input ctx i.previous_output) (missing_utxo i.previous_output)
  spent_scripts ctx is (insert_set utxo.script seen)

unfoldable pub paid_scripts : List TxOut → List Bytes → List Bytes
paid_scripts [] seen = seen
paid_scripts (o ∷ os) seen = paid_scripts os (insert_set o.script_pubkey seen)

-- `seen_scripts`
unfoldable pub seen_scripts : IndexingContext → Transaction → Result Error (List Bytes)
seen_scripts ctx tx = do
  seen ← (if tx.is_coinbase then ok [] else spent_scripts ctx tx.input [])
  ok (paid_scripts tx.output seen)

-- `TxCountByAddressIndexer::process_tx`
unfoldable pub count_tx : (db : Db) → ProcessTransaction db
count_tx db s task tx tx_block_index ctx = do
  seen ← seen_scripts ctx tx.tx
  task' ← for_each (λ script t. increment_by db s tx_count_by_address_kv t script 1) seen task
  ok (task', ctx)

-- No script stands twice.
abbrev pub IsDistinct : List Bytes → Type 0
IsDistinct [] = Unit
IsDistinct (x ∷ xs) = (contains x xs ≡ false) × IsDistinct xs

abbrev pub is_locked_by : Option Utxo → Bytes → Bool
is_locked_by none x = false
is_locked_by (some utxo) x = list_beq utxo.script x

-- Does some input spend from the script, or some output pay to it?
abbrev pub spends_from : IndexingContext → Bytes → List TxIn → Bool
spends_from ctx x [] = false
spends_from ctx x (i ∷ is) =
    is_locked_by (resolve_input ctx i.previous_output) x || spends_from ctx x is

abbrev pub pays_to : Bytes → List TxOut → Bool
pays_to x [] = false
pays_to x (o ∷ os) = list_beq o.script_pubkey x || pays_to x os

-- The script is on either side of the transaction; a coinbase spends from none.
abbrev pub touches : IndexingContext → Bytes → Transaction → Bool
touches ctx x tx =
    (if tx.is_coinbase then false else spends_from ctx x tx.input) || pays_to x tx.output

contains-insert_set :
    (x a : Bytes) (seen : List Bytes)
    → contains x (insert_set a seen) ≡ (list_beq a x || contains x seen)
contains-insert_set x a [] = ground arith
contains-insert_set x a (y ∷ ys) =
    ground (arith, list_beq_iff a x, list_beq_iff y a, list_beq_iff y x, contains-insert_set x a ys)

insert_set-IsDistinct :
    (a : Bytes) (seen : List Bytes) → IsDistinct seen → IsDistinct (insert_set a seen)
insert_set-IsDistinct a [] h = (refl, tt)
insert_set-IsDistinct a (y ∷ ys) h = ground (
  arith,
  list_beq_iff a y,
  list_beq_iff y a,
  contains-insert_set y a ys,
  insert_set-IsDistinct a ys h.1,
)

paid_scripts-exact :
    (os : List TxOut) (seen : List Bytes)
    → IsDistinct seen
    → IsDistinct (paid_scripts os seen)
      × ((x : Bytes) → contains x (paid_scripts os seen) ≡ (pays_to x os || contains x seen))
unfolding paid_scripts
paid_scripts-exact [] seen h = (h, λ x. refl)
paid_scripts-exact (o ∷ os) seen h =
    let (d, c) =
      paid_scripts-exact os (insert_set o.script_pubkey seen)
        (insert_set-IsDistinct o.script_pubkey seen h) in
    (d, λ x. ground (arith, c x, contains-insert_set x o.script_pubkey seen))

spent_scripts-exact :
    (ctx : IndexingContext) (is : List TxIn) (seen scripts : List Bytes)
    → IsDistinct seen
    → spent_scripts ctx is seen ≡ ok scripts
    → IsDistinct scripts
      × ((x : Bytes) → contains x scripts ≡ (spends_from ctx x is || contains x seen))
unfolding spent_scripts
spent_scripts-exact ctx [] seen scripts h e =
    subst (λ l. IsDistinct l × ((x : Bytes) → contains x l ≡ contains x seen)) (ok-injective e)
      (h, λ x. refl)
spent_scripts-exact ctx (i ∷ is) seen scripts h e =
    elim (Option-cases (resolve_input ctx i.previous_output)) [
      | inl p ↦ absurd (cc (rw p at e))
      | inr (utxo, p) ↦
          let (d, c) =
            spent_scripts-exact ctx is (insert_set utxo.script seen) scripts
              (insert_set-IsDistinct utxo.script seen h) (rw p at e) in
          (d, λ x. ground (arith, c x, contains-insert_set x utxo.script seen))
    ]

seen_scripts-exact :
    (ctx : IndexingContext) (tx : Transaction) (scripts : List Bytes)
    → seen_scripts ctx tx ≡ ok scripts
    → IsDistinct scripts × ((x : Bytes) → contains x scripts ≡ touches ctx x tx)
unfolding seen_scripts
seen_scripts-exact ctx tx scripts e = elim (Bool-cases tx.is_coinbase) [
  | inl c ↦
      let (d, f) = paid_scripts-exact tx.output [] tt in
      subst (λ l. IsDistinct l × ((x : Bytes) → contains x l ≡ touches ctx x tx))
        (ok-injective (rw c at e)) (d, λ x. ground (arith, f x))
  | inr c ↦ elim (Result-cases (spent_scripts ctx tx.input [])) [
    | inl (spent, p) ↦
        let (d, f) = spent_scripts-exact ctx tx.input [] spent tt p in
        let (d', f') = paid_scripts-exact tx.output spent d in
        subst (λ l. IsDistinct l × ((x : Bytes) → contains x l ≡ touches ctx x tx))
          (ok-injective (rw (c, p) at e)) (d', λ x. ground (arith, f x, f' x))
    | inr (x, p) ↦ absurd (cc (rw (c, p) at e))
  ]
]

abbrev count_one : (db : Db) → db.Store → Bytes → IndexingTask → Result Error IndexingTask
count_one db s script t = increment_by db s tx_count_by_address_kv t script 1

-- One increment for each of the scripts.
abbrev pub increments : List Bytes → List TaskOp
increments scripts = map (λ x. merge_op (encode_key tx_count_by_address_kv x) (increment 1)) scripts

for_each-increments :
    (db : Db) (s : db.Store) (scripts : List Bytes) (task : IndexingTask)
    → for_each (count_one db s) scripts task ≡ run_ops db s (increments scripts) task
unfolding run_ops run_op increment_by
for_each-increments db s [] task = refl
for_each-increments db s (x ∷ xs) task =
    λ j. count_one db s x task >>= λ t. for_each-increments db s xs t j

-- A transaction is counted once for every script that it spends from or pays to, however often,
-- and for no other: what it writes is one increment by one for each of them. The context stays.
pub count_tx-once_per_script :
    (db : Db) (s : db.Store) (task task' : IndexingTask) (tx : TransactionWithId) (i : ℕ)
    (ctx ctx' : IndexingContext)
    → count_tx db s task tx i ctx ≡ ok (task', ctx')
    → (scripts : List Bytes) × IsDistinct scripts
      × ((x : Bytes) → contains x scripts ≡ touches ctx x tx.tx)
      × (run_ops db s (increments scripts) task ≡ ok task')
      × (ctx' ≡ ctx)
unfolding count_tx
count_tx-once_per_script db s task task' tx i ctx ctx' e =
    let (scripts, p, q) = bind-ok (seen_scripts ctx tx.tx) _ (task', ctx') e in
    let (t, a, b) = bind-ok (for_each (count_one db s) scripts task) _ (task', ctx') q in
    let (d, f) = seen_scripts-exact ctx tx.tx scripts p in
    (
      scripts,
      d,
      f,
      sym (for_each-increments db s scripts task) ∙ a ∙ ap ok (ap (λ r. r.0) (ok-injective b)),
      ap (λ r. r.1) (sym (ok-injective b)),
    )

pub count_tx-WritesOnly : (db : Db) → WritesOnly db (count_tx db)
count_tx-WritesOnly db s task tx i ctx task' ctx' e =
    let (scripts, d, f, r, k) = count_tx-once_per_script db s task task' tx i ctx ctx' e in
    (increments scripts, r)
