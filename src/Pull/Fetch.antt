-- ===== src/Pull/Fetch.antt =====
-- src/sync/stages/pull/stage.rs: `fetch_chain_actions` and the sending of its events. The node's answers
-- are a parameter, and logging is left out.
use maestro_symphony.Prelude.{
  ℕ, suc, List, [], ◌∷◌, ◌++◌, map, reverse, length, take, Option, none, some, Bytes, list_beq,
  list_eq, nat_eq, ltb, eqb, Map, lookup, insert, if◌then◌else◌, Result, ok, err, ◌>>=◌,
}
use maestro_symphony.Core.{Point, Error, BlockTxs}
use maestro_symphony.Worker.Stage.{
  WorkerError, worker_panic, worker_restart, ChainEvent, roll_forward, roll_back,
}

-- Of a header and a block of the `bitcoin` crate, what the stage reads; the transactions with the ids
-- that the crate computes.
pub record Header : Type 0 where
  pub block_hash : Bytes
  pub prev_blockhash : Bytes

pub record Block : Type 0 where
  pub block_hash : Bytes
  pub txdata : BlockTxs

-- The node's answers while one page is fetched; `none` is an error of the peer.
pub record Peer : Type 0 where
  pub get_new_headers : List Bytes → Option (List Header)
  pub get_blocks : List Bytes → Option (List Block)

-- Of the stage, its page size and what it reads of the configuration and the store.
pub record Settings : Type 0 where
  pub block_page_size : ℕ
  pub genesis_hash : Bytes
  pub options : Result Error (List Point)

pub record Worker : Type 0 where
  pub cursor : List Point
  pub tip : Point

-- The worker as a step leaves it, and what the step answers.
abbrev pub Fetched : Type 0
Fetched = Worker × Result WorkerError (List ChainEvent)

-- `HashMap::from_iter`, in which the last point of a hash counts.
abbrev pub cursor_map : List Point → Map Bytes ℕ → Map Bytes ℕ
cursor_map [] m = m
cursor_map (p ∷ ps) m = cursor_map ps (insert p.hash p.height m)

abbrev pub rollback_from : List Point → Point → List ChainEvent
rollback_from [] intersect = []
rollback_from (tip ∷ ps) intersect =
    if eqb intersect.height tip.height then [] else roll_back intersect ∷ []

-- `zip((*intersect_height + 1)..)`
abbrev pub number : ℕ → List (Header × Block) → List ((Header × Block) × ℕ)
number height [] = []
number height (h ∷ hs) = (h, height) ∷ number (suc height) hs

abbrev pub zip : {A B : Type 0} → List A → List B → List (A × B)
zip [] bs = []
zip (a ∷ as') [] = []
zip (a ∷ as') (b ∷ bs) = (a, b) ∷ zip as' bs

abbrev pub point_of : (Header × Block) × ℕ → Point
point_of ((header, block), height) = record { height = height; hash = header.block_hash }

abbrev pub retain_below : ℕ → List Point → List Point
retain_below height [] = []
retain_below height (p ∷ ps) =
    let rest = retain_below height ps in if ltb p.height height then p ∷ rest else rest

abbrev pub last_of : Point → List Point → Point
last_of p [] = p
last_of p (q ∷ qs) = last_of q qs

-- Without new points all the options are taken, or else those below the last new point.
abbrev pub add_options : List Point → List Point → List Point
add_options [] options = options
add_options (p ∷ ps) options = (p ∷ ps) ++ retain_below (last_of p ps).height options

abbrev pub extend_cursor : Settings → List Point → Result Error (List Point)
extend_cursor settings points =
    if ltb (length points) 50
    then (do options ← settings.options; ok (add_options points options))
    else ok points

-- The last fifty of the new points, newest first.
abbrev pub newest_points : List ((Header × Block) × ℕ) → List Point
newest_points headers = take 50 (reverse (map point_of headers))

unfoldable pub next_cursor : Settings → List ((Header × Block) × ℕ) → Result Error (List Point)
next_cursor settings headers = do
  cursor ← extend_cursor settings (newest_points headers)
  ok (cursor ++ (record { height = 0; hash = settings.genesis_hash } ∷ []))

abbrev pub raise_tip : Point → Worker → Worker
raise_tip point w = if ltb w.tip.height point.height then record w { tip = point } else w

abbrev pub add_event : ChainEvent → Fetched → Fetched
add_event event (w, ok events) = (w, ok (event ∷ events))
add_event event (w, err e) = (w, err e)

-- The loop over the blocks. `compute_txid` is third-party, and a block's transactions have their ids.
unfoldable pub forward : List ((Header × Block) × ℕ) → Worker → Fetched
forward [] w = (w, ok [])
forward (((header, block), height) ∷ headers) w =
    let point = point_of ((header, block), height) in
    let w' = raise_tip point w in
    let rest =
      add_event (roll_forward point header.prev_blockhash block.txdata w'.tip)
        (forward headers w') in
    if list_beq header.block_hash block.block_hash then rest else (w, err worker_restart)

abbrev pub prepend : List ChainEvent → Fetched → Fetched
prepend before (w, ok events) = (w, ok (before ++ events))
prepend before (w, err e) = (w, err e)

-- Where the options are not read, the cursor is left with the new points only.
abbrev pub forward_from :
    List ChainEvent → List ((Header × Block) × ℕ) → Worker → Result Error (List Point) → Fetched
forward_from before headers w (ok cursor) =
    prepend before (forward headers (record w { cursor = cursor }))
forward_from before headers w (err e) =
    (record w { cursor = newest_points headers }, err worker_panic)

-- With the height at which the first new block connects.
abbrev pub connect : Settings → Worker → Header → List (Header × Block) → Option ℕ → Fetched
connect settings w first headers none = (w, err worker_restart)
connect settings w first headers (some height) =
    let numbered = number (suc height) headers in
    forward_from (rollback_from w.cursor (record { height = height; hash = first.prev_blockhash }))
      numbered w (next_cursor settings numbered)

abbrev pub with_blocks : Settings → Worker → Header → List Header → Option (List Block) → Fetched
with_blocks settings w first headers none = (w, err worker_restart)
with_blocks settings w first headers (some blocks) =
    if eqb (length headers) (length blocks)
    then connect settings w first (zip headers blocks)
        (lookup first.prev_blockhash (cursor_map w.cursor []))
    else (w, err worker_restart)

abbrev pub with_headers : Settings → Peer → Worker → Option (List Header) → Fetched
with_headers settings peer w none = (w, err worker_restart)
with_headers settings peer w (some []) = (w, ok [])
with_headers settings peer w (some (first ∷ more)) =
    let headers = take settings.block_page_size (first ∷ more) in
    with_blocks settings w first headers (peer.get_blocks (map (λ h. h.block_hash) headers))

unfoldable pub fetch_chain_actions : Settings → Peer → Worker → Fetched
fetch_chain_actions settings peer w =
    with_headers settings peer w (peer.get_new_headers (map (λ p. p.hash) w.cursor))
