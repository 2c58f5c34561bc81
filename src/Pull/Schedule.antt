-- ===== src/Pull/Schedule.antt =====
-- src/sync/stages/pull/stage.rs: `bootstrap` and `schedule`, what the stage sends next. The node's
-- answers are a parameter; the connection, the waiting and the logging are left out.
use maestro_symphony.Prelude.{
  ℕ, List, [], ◌∷◌, ◌++◌, Option, none, some, Bool, true, false, Bytes, ltb, if◌then◌else◌, Result,
  ok, err, ◌>>=◌,
}
use maestro_symphony.Core.{Point, Error, BlockTxs}
use maestro_symphony.Worker.Stage.{
  WorkerError, worker_panic, worker_restart, ChainEvent, mempool_blocks,
}
use maestro_symphony.Pull.Fetch.{Header, Peer, Settings, Worker, Fetched, fetch_chain_actions}

-- The node's answers in one step, before and after the waiting for a block; `none` is an error.
pub record Node : Type 0 where
  pub peer : Peer
  pub later_peer : Peer
  pub chain_tips : Option (List Point)
  pub block_template : Option (Bytes × BlockTxs)

-- What a step reads of the process: the signal to stop and the clock.
pub record Signals : Type 0 where
  pub should_shutdown : Bool
  pub timestamp : ℕ
  pub mempool_enabled : Bool

pub record Session : Type 0 where
  pub worker : Worker
  pub initialised : Bool
  pub tip_reached : Bool

pub data WorkSchedule : Type 0 where
  done idle : WorkSchedule
  send_unit : List ChainEvent → WorkSchedule

abbrev pub Scheduled : Type 0
Scheduled = Session × Result WorkerError WorkSchedule

-- `max_by_key`: of the highest tips, the last.
abbrev pub highest : List Point → Option Point
highest [] = none
highest (p ∷ ps) = elim (highest ps) [
  | none ↦ some p
  | some q ↦ if ltb q.height p.height then some p else some q
]

abbrev pub node_tip : Option (List Point) → Result WorkerError Point
node_tip none = err worker_restart
node_tip (some tips) = elim (highest tips) [ none ↦ err worker_restart | some tip ↦ ok tip ]

abbrev pub or_panic : {A : Type 0} → Result Error A → Result WorkerError A
or_panic (ok a) = ok a
or_panic (err e) = err worker_panic

unfoldable pub bootstrap : Settings → Node → Result WorkerError Session
bootstrap settings node = do
  cursor ← or_panic settings.options
  tip ← node_tip node.chain_tips
  ok (record {
    worker = record { cursor = cursor; tip = tip };
    initialised = false;
    tip_reached = false;
  })

-- A node that knows no header after the genesis block is syncing.
abbrev pub node_syncing : Option (List Header) → Option Bool
node_syncing none = none
node_syncing (some []) = some true
node_syncing (some (h ∷ hs)) = some false

abbrev pub finish : Session → List ChainEvent → Scheduled
finish s [] = (s, ok idle)
finish s (e ∷ es) = (s, ok (send_unit (e ∷ es)))

abbrev pub with_template :
    Signals → Session → List ChainEvent → Option (Bytes × BlockTxs) → Scheduled
with_template signals s events none = (s, err worker_restart)
with_template signals s events (some (prev, txs)) = finish s (
    events
    ++ (mempool_blocks (record { timestamp = signals.timestamp; tip = prev }) (txs ∷ []) ∷ []))

abbrev pub with_enabled : Signals → Node → Session → List ChainEvent → Bool → Scheduled
with_enabled signals node s events true = with_template signals s events node.block_template
with_enabled signals node s events false = finish s events

-- The events at the tip, and the mempool's blocks behind them.
abbrev pub with_mempool : Signals → Node → Session → Fetched → Scheduled
with_mempool signals node s (w, err e) = (record s { worker = w }, err e)
with_mempool signals node s (w, ok events) =
    with_enabled signals node (record s { worker = w }) events signals.mempool_enabled

abbrev pub at_tip : Settings → Signals → Node → Session → Scheduled
at_tip settings signals node s =
    with_mempool signals node s (fetch_chain_actions settings node.later_peer s.worker)

-- The first fetch; without events, the tip is reached.
abbrev pub before_tip : Settings → Signals → Node → Session → Fetched → Scheduled
before_tip settings signals node s (w, err e) = (record s { worker = w }, err e)
before_tip settings signals node s (w, ok []) =
    at_tip settings signals node (record s { worker = w; tip_reached = true })
before_tip settings signals node s (w, ok (e ∷ es)) = finish (record s { worker = w }) (e ∷ es)

abbrev pub from_tip : Settings → Signals → Node → Session → Bool → Scheduled
from_tip settings signals node s true = at_tip settings signals node s
from_tip settings signals node s false =
    before_tip settings signals node s (fetch_chain_actions settings node.peer s.worker)

abbrev pub next_events : Settings → Signals → Node → Session → Scheduled
next_events settings signals node s = from_tip settings signals node s s.tip_reached

abbrev pub refresh_tip : Session → Result WorkerError Point → Scheduled
refresh_tip s (ok tip) = (record s { worker = record s.worker { tip = tip } }, ok idle)
refresh_tip s (err e) = (s, err e)

abbrev pub when_synced : Settings → Signals → Node → Session → Option Bool → Scheduled
when_synced settings signals node s none = (s, err worker_restart)
when_synced settings signals node s (some true) = refresh_tip s (node_tip node.chain_tips)
when_synced settings signals node s (some false) =
    next_events settings signals node (record s { initialised = true })

abbrev pub when_initialised : Settings → Signals → Node → Session → Bool → Scheduled
when_initialised settings signals node s true = next_events settings signals node s
when_initialised settings signals node s false =
    when_synced settings signals node s
      (node_syncing (node.peer.get_new_headers (settings.genesis_hash ∷ [])))

-- `Worker::schedule`
unfoldable pub schedule_events : Settings → Signals → Node → Session → Scheduled
schedule_events settings signals node s =
    if signals.should_shutdown
    then (s, ok done)
    else when_initialised settings signals node s s.initialised
