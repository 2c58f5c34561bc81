-- ===== src/Tests/Pull.antt =====
-- src/sync/stages/pull and the intersect options on concrete inputs: two new blocks after a rollback.
use maestro_symphony.Prelude.{
  ℕ, zero, suc, ◌≤◌, ◌<◌, ◌≡◌, ◌≢◌, Option, refl, arith, List, [], ◌∷◌, ◌++◌, All, none, true,
  false, some, Bytes, replicate, ◌⊎◌, ok,
}
use maestro_symphony.Encdec.VarUInt.{
  encode_varuint, encode_digits, to_be_bytes, decode_varuint, split_at_checked, from_be_bytes,
}
use maestro_symphony.Table.{encode_key, decode_entry}
use maestro_symphony.Core.{Point, hash_by_height_kv}
use maestro_symphony.Store.{put_cf, reader_get, apply_batch}
use maestro_symphony.Worker.Stage.{ChainEvent, roll_forward, roll_back, mempool_blocks}
use maestro_symphony.Pull.Intersect.{
  LastEntry, intersect_options, heights_of, Falls, IsIndexed, IsStoredPoint,
  intersect_options-total,
}
use maestro_symphony.Pull.Fetch.{
  Header, Peer, Settings, Worker, fetch_chain_actions, forward, next_cursor,
}
use maestro_symphony.Pull.Schedule.{Node, Signals, Session, send_unit, schedule_events}
use maestro_symphony.Pull.Sends.{Answers, schedule_events-Answers}
use maestro_symphony.Pull.Chain.{IsFetch, fetch_chain_actions-IsFetch}
use maestro_symphony.Tests.Database.{memory}

abbrev hash : ℕ → Bytes
hash n = n ∷ []

abbrev at : ℕ → Bytes → Point
at n h = record { height = n; hash = h }

abbrev header : ℕ → ℕ → Header
header n prev = record { block_hash = hash n; prev_blockhash = hash prev }

-- The node has replaced the eighth block.
abbrev peer : Peer
peer = record {
  get_new_headers = λ hashes. some (header 18 7 ∷ header 19 18 ∷ []);
  get_blocks = λ hashes. some (
      record { block_hash = hash 18; txdata = [] }
      ∷ record { block_hash = hash 19; txdata = [] }
      ∷ []);
}

abbrev settings : Settings
settings = record { block_page_size = 10; genesis_hash = hash 0; options = ok [] }

abbrev worker : Worker
worker = record { cursor = at 8 (hash 8) ∷ at 7 (hash 7) ∷ at 0 (hash 0) ∷ []; tip = at 8 (hash 8) }

abbrev moved : Worker
moved = record {
  cursor = at 9 (hash 19) ∷ at 8 (hash 18) ∷ at 0 (hash 0) ∷ [];
  tip = at 9 (hash 19);
}

abbrev sent : List ChainEvent
sent =
    roll_back (at 7 (hash 7))
    ∷ roll_forward (at 8 (hash 18)) (hash 7) [] (at 8 (hash 8))
    ∷ roll_forward (at 9 (hash 19)) (hash 18) [] (at 9 (hash 19))
    ∷ []

fetched : fetch_chain_actions settings peer worker ≡ (moved, ok sent)
unfolding fetch_chain_actions forward next_cursor
fetched = refl

fetch_chain_actions-IsFetch_example :
    ((◌≡◌ {A = Option (List Header)} (some (header 18 7 ∷ header 19 18 ∷ [])) (some []))
      × (moved ≡ worker)
      × (sent ≡ []))
    ⊎ ((sent ≢ []) × IsFetch settings peer worker moved sent)
fetch_chain_actions-IsFetch_example =
    fetch_chain_actions-IsFetch settings peer worker moved sent (omega arith) fetched

abbrev node : Node
node = record {
  peer = peer;
  later_peer = peer;
  chain_tips = none;
  block_template = some (hash 19, []);
}

abbrev signals : Signals
signals = record { should_shutdown = false; timestamp = 1234; mempool_enabled = true }

abbrev session : Session
session = record { worker = worker; initialised = true; tip_reached = true }

abbrev sent_at_tip : List ChainEvent
sent_at_tip = sent ++ (mempool_blocks (record { timestamp = 1234; tip = hash 19 }) ([] ∷ []) ∷ [])

scheduled :
    schedule_events settings signals node session
    ≡ (record session { worker = moved }, ok (send_unit sent_at_tip))
unfolding schedule_events
scheduled = rw fetched refl

schedule_events-Answers_example :
    Answers settings signals node session
      (record session { worker = moved })
      (send_unit sent_at_tip)
schedule_events-Answers_example =
    schedule_events-Answers settings signals node session (record session { worker = moved })
      (send_unit sent_at_tip) scheduled

-- Two indexed blocks.
abbrev indexed : memory.Store
indexed =
    (
      3,
      put_cf (encode_key hash_by_height_kv 1) (replicate 32 1)
          ∷ put_cf (encode_key hash_by_height_kv 2) (replicate 32 2)
          ∷ [],
    )
    ∷ []

abbrev last_entry : LastEntry memory indexed 5
last_entry range = some (encode_key hash_by_height_kv 2, replicate 32 2)

last_decoded :
    decode_entry hash_by_height_kv (encode_key hash_by_height_kv 2, replicate 32 2)
    ≡ ok (2, replicate 32 2)
unfolding decode_entry encode_key encode_varuint encode_digits to_be_bytes decode_varuint
    split_at_checked from_be_bytes
last_decoded = refl

indexed_below : (n : ℕ) → 0 < n → n ≤ 2 → IsIndexed memory indexed 5 n
unfolding reader_get encode_key encode_varuint encode_digits to_be_bytes split_at_checked
    apply_batch
indexed_below zero p q = absurd (omega arith)
indexed_below (suc zero) p q = (replicate 32 1, refl)
indexed_below (suc (suc zero)) p q = (replicate 32 2, refl)
indexed_below (suc (suc (suc n))) p q = absurd (omega arith)

intersect_options-total_example :
    (points : List Point) × (heights : List ℕ) × (intersect_options memory indexed 5 last_entry
        (hash 0)
      ≡ ok (points ++ (at 0 (hash 0) ∷ [])))
    × (heights_of points ≡ 2 ∷ heights)
    × Falls 2 heights
    × All (IsStoredPoint memory indexed 5) points
intersect_options-total_example =
    intersect_options-total memory indexed 5 last_entry (hash 0)
      (encode_key hash_by_height_kv 2, replicate 32 2) 2 (replicate 32 2) refl last_decoded
      (omega arith) (omega arith) indexed_below
