-- ===== src/Worker/Restart.antt =====
-- src/sync/stages/index/worker/stage.rs: what `Stage::new` establishes.
use maestro_symphony.Prelude.{
  ℕ, ◌≡◌, ◌≤◌, ◌<◌, sym, ap, subst, ◌∙◌, arith, List, [], ◌∷◌, Option, none, some, Bool, true,
  false, ◌&&◌, Bytes, ok, ok-injective, Bool-cases, Result-cases, inl, inr,
}
use maestro_symphony.Core.{
  Point, point_beq, point_beq_iff, indexer_info_kv, IndexerInfo, lift_decoding, rollback_buffer_kv,
  hash_by_height_kv,
}
use maestro_symphony.Table.{decode_entry, encode_range}
use maestro_symphony.Timestamp.{as_u64, from_u64}
use maestro_symphony.Store.{Db, StorageHandler, u64_max, reader_get, OriginalKvs}
use maestro_symphony.Rollback.{
  RollbackBuffer, PointWithOriginalKvs, latest, new, insert_actions_for_point, insert_at, kvs_at,
  add_block, position, any_present,
}
use maestro_symphony.Rollback.Storage.{load_entries, empty_buffer, fetch_from_storage}
use maestro_symphony.Worker.Cache.{CacheLib}
use maestro_symphony.Worker.Stage.{Stage}
use maestro_symphony.Worker.Consistency.{IsOnTip, IsImmutable, IsConsistent}
use maestro_symphony.Worker.Start.{
  Config, Iterations, last_processed_of, check_latest, check_buffer, new_stage, starts_mutable,
}

insert_at-size :
    (b : RollbackBuffer) (point : Point) (kvs : OriginalKvs) (at : Option ℕ) (b' : RollbackBuffer)
    → insert_at b point kvs at ≡ ok b'
    → b'.size ≡ b.size
unfolding add_block
insert_at-size b point kvs none b' e = ap (λ x. x.size) (sym (ok-injective e))
insert_at-size b point kvs (some p) b' e =
    elim (Bool-cases (b.safe_mode && any_present (kvs_at p b.points) kvs)) [
      | inl q ↦ absurd (cc (rw q at e))
      | inr q ↦ ap (λ x. x.size) (sym (ok-injective (rw q at e)))
    ]

insert_actions_for_point-size :
    (b : RollbackBuffer) (point : Point) (kvs : OriginalKvs) (b' : RollbackBuffer)
    → insert_actions_for_point b point kvs ≡ ok b'
    → b'.size ≡ b.size
unfolding insert_actions_for_point
insert_actions_for_point-size b point kvs b' e = insert_at-size b point kvs (position b point) b' e

load_entries-size :
    (b : RollbackBuffer) (entries : List (Bytes × Bytes)) (b' : RollbackBuffer)
    → load_entries b entries ≡ ok b'
    → b'.size ≡ b.size
unfolding load_entries
load_entries-size b [] b' e = ap (λ x. x.size) (sym (ok-injective e))
load_entries-size b (entry ∷ entries) b' e =
    elim (Result-cases (lift_decoding (decode_entry rollback_buffer_kv entry))) [
      | inr (x, q) ↦ absurd (cc (rw q at e))
      | inl (kv, q) ↦
          let point : Point = record { height = kv.0.height; hash = kv.0.hash } in
          elim (Result-cases (insert_actions_for_point b point ((kv.0.key, kv.1) ∷ []))) [
            | inr (x, p) ↦ absurd (cc (rw (q, p) at e))
            | inl (c, p) ↦
                load_entries-size c entries b' (rw (q, p) at e)
                ∙ insert_actions_for_point-size b point ((kv.0.key, kv.1) ∷ []) c p
          ]
    ]

-- A buffer that passes the assertions against the info of a block stands on the last point.
check_buffer-IsOnTip :
    (ps : List PointWithOriginalKvs) (size : ℕ) (safe_mode : Bool) (info : IndexerInfo)
    (last : Point)
    → info.mempool ≡ false
    → check_buffer (record { points = ps; size = size; safe_mode = safe_mode }) (some info) last
      ≡ ok tt
    → IsOnTip false last ps
unfolding check_buffer check_latest latest
check_buffer-IsOnTip [] size safe_mode info last m e = tt
check_buffer-IsOnTip (p ∷ ps) size safe_mode info last m e =
    elim (Bool-cases (point_beq p.point last)) [
      | inl b ↦ (point_beq_iff p.point last).0 b
      | inr b ↦ absurd (cc (rw (m, b) at e))
    ]

empty_buffer-roomy :
    (max_rollback : Option ℕ) (safe_mode : Option Bool)
    → 2 ≤ (empty_buffer max_rollback safe_mode).size
unfolding new
empty_buffer-roomy none safe_mode = omega arith
empty_buffer-roomy (some n) safe_mode = omega arith

starts_mutable-IsImmutable :
    (ps : List PointWithOriginalKvs) → IsImmutable (elim ps [ [] ↦ false | p ∷ qs ↦ true ]) ps
starts_mutable-IsImmutable [] = tt
starts_mutable-IsImmutable (p ∷ ps) = tt

-- A stage that starts after the commit of a block, its assertions passed, is consistent: its
-- rollback buffer, if not empty, begins with the last processed block and has room for two points,
-- and it keeps originals if the buffer is not empty.
pub new_stage-IsConsistent :
    (lib : CacheLib) (db : Db) (config : Config) (cache : Option lib.Cache) (genesis : Bytes)
    (iterations : Iterations) (handler : StorageHandler db) (info : IndexerInfo) (st : Stage lib db)
    → reader_get db indexer_info_kv handler.store (as_u64 (from_u64 u64_max)) tt ≡ ok (some info)
    → info.mempool ≡ false
    → new_stage lib db config cache genesis iterations handler ≡ ok st
    → st.last_processed.height < u64_max
    → IsConsistent lib db st (starts_mutable lib db st)
unfolding new_stage fetch_from_storage
new_stage-IsConsistent lib db config cache genesis iterations handler info st i m e l =
    elim (Result-cases (
      load_entries (empty_buffer config.max_rollback config.safe_mode)
        (iterations.entries (encode_range rollback_buffer_kv none none)))) [
          | inr (x, q) ↦ absurd (cc (rw q at e))
          | inl (buffer, q) ↦
              elim (Result-cases (
                last_processed_of genesis
                  (iterations.last_entry (encode_range hash_by_height_kv none none)))) [
                    | inr (x, p) ↦ absurd (cc (rw (q, p) at e))
                    | inl (last, p) ↦ elim (Result-cases (check_buffer buffer (some info) last)) [
                      | inr (x, c) ↦ absurd (cc (rw (q, p, i, c) at e))
                      | inl (u, c) ↦
                          subst
                            (λ x.
                              x.last_processed.height < u64_max
                              → IsConsistent lib db x (starts_mutable lib db x))
                            (ok-injective (rw (q, p, i, c) at e))
                            (λ bound. record {
                              on_tip = rw m (
                                  check_buffer-IsOnTip buffer.points buffer.size buffer.safe_mode
                                    info last m c);
                              bounded = bound;
                              roomy =
                                  subst (λ n. 2 ≤ n) (sym (load_entries-size _ _ buffer q))
                                    (empty_buffer-roomy config.max_rollback config.safe_mode);
                              immutable = starts_mutable-IsImmutable buffer.points;
                            })
                            l
                    ]
                  ]
        ]
