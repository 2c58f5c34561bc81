-- ===== src/Pull/Chain.antt =====
-- src/sync/stages/pull/stage.rs: the events of one fetch as a piece of the node's chain.
use maestro_symphony.Prelude.{
  ℕ, zero, suc, ◌≡◌, ◌≢◌, ◌<◌, refl, sym, ap, subst, ◌∙◌, arith, List, [], ◌∷◌, ◌++◌, map, reverse,
  length, take, Option, none, some, Bool-cases, ◌⊎◌, inl, inr, list_eq, nat_eq, ltb, eqb, lookup,
  ok, err, bind-ok, ok-injective, Result-cases,
}
use mathlib.Core.List.{reverse-cons}
use maestro_symphony.Core.{Point}
use maestro_symphony.Worker.Stage.{ChainEvent, roll_back}
use maestro_symphony.Pull.Fetch.{
  Header, Block, Peer, Settings, Worker, Fetched, cursor_map, rollback_from, number, zip, point_of,
  last_of, retain_below, add_options, extend_cursor, next_cursor, forward, prepend, connect,
  with_blocks, with_headers, fetch_chain_actions,
}
use maestro_symphony.Pull.Forwards.{
  Follows, Links, Carries, last_point, IsForward, forward-IsForward,
}

-- A cursor whose first point is this one.
abbrev pub IsAt : Point → Worker → Type 0
IsAt p w = (ps : List Point) × (w.cursor ≡ p ∷ ps)

reverse-head :
    (x : Point) (xs : List Point) → (ys : List Point) × (reverse (x ∷ xs) ≡ last_of x xs ∷ ys)
reverse-head x [] = ([], reverse-cons x [])
reverse-head x (y ∷ xs) =
    let (ys, e) = reverse-head y xs in
    (ys ++ (x ∷ []), reverse-cons x (y ∷ xs) ∙ ap (λ l. l ++ (x ∷ [])) e)

extend_cursor-head :
    (settings : Settings) (p : Point) (ps cursor : List Point)
    → extend_cursor settings (p ∷ ps) ≡ ok cursor
    → (qs : List Point) × (cursor ≡ p ∷ qs)
extend_cursor-head settings p ps cursor e = elim (Bool-cases (ltb (length (p ∷ ps)) 50)) [
  | inr b ↦ (ps, sym (ok-injective (rw b at e)))
  | inl b ↦
      let (options, a, c) =
        bind-ok settings.options (λ options. ok (add_options (p ∷ ps) options)) cursor
          (rw b at e) in
      (ps ++ retain_below (last_of p ps).height options, sym (ok-injective c))
]

-- The new cursor begins with the last of the new points.
next_cursor-head :
    (settings : Settings) (h : (Header × Block) × ℕ) (hs : List ((Header × Block) × ℕ))
    (cursor : List Point)
    → next_cursor settings (h ∷ hs) ≡ ok cursor
    → (ps : List Point) × (cursor ≡ last_of (point_of h) (map point_of hs) ∷ ps)
unfolding next_cursor
next_cursor-head settings h hs cursor e =
    let (ys, r) = reverse-head (point_of h) (map point_of hs) in
    let (c, a, b) =
      bind-ok (extend_cursor settings (take 50 (reverse (map point_of (h ∷ hs)))))
        (λ c. ok (c ++ (record { height = 0; hash = settings.genesis_hash } ∷ []))) cursor e in
    let (zs, q) =
      extend_cursor-head settings (last_of (point_of h) (map point_of hs)) (take 49 ys) c
        (subst (λ l. extend_cursor settings (take 50 l) ≡ ok c) r a) in
    (
      zs ++ (record { height = 0; hash = settings.genesis_hash } ∷ []),
      sym (ok-injective b)
          ∙ ap (λ l. l ++ (record { height = 0; hash = settings.genesis_hash } ∷ [])) q,
    )

prepend-ok :
    (before : List ChainEvent) (r : Fetched) (w : Worker) (events : List ChainEvent)
    → prepend before r ≡ (w, ok events)
    → (rest : List ChainEvent) × (r ≡ (w, ok rest)) × (before ++ rest ≡ events)
prepend-ok before (v, ok rest) w events e = (rest, cc e, cc e)
prepend-ok before (v, err x) w events e = absurd (cc e)

-- A rollback stands before the blocks exactly if the first point of the cursor has another height.
abbrev pub StartsFrom : List Point → Point → List ChainEvent → List ChainEvent → Type 0
StartsFrom [] intersect events forwards = events ≡ forwards
StartsFrom (tip ∷ ps) intersect events forwards =
    ((intersect.height ≡ tip.height) × (events ≡ forwards))
    ⊎ ((intersect.height ≢ tip.height) × (events ≡ roll_back intersect ∷ forwards))

rollback_from-StartsFrom :
    (cursor : List Point) (intersect : Point) (forwards : List ChainEvent)
    → StartsFrom cursor intersect (rollback_from cursor intersect ++ forwards) forwards
rollback_from-StartsFrom [] intersect forwards = refl
rollback_from-StartsFrom (tip ∷ ps) intersect forwards =
    elim (Bool-cases (eqb intersect.height tip.height)) [
      | inl b ↦ inl (ground arith, rw b refl)
      | inr b ↦ inr (λ e. ground (arith, e), rw b refl)
    ]

-- The events of new headers with their blocks, from `intersect`, a point of the cursor: a rollback to it,
-- unless the cursor's first point has its height, then one event for each, the last of which the new
-- cursor starts at.
pub record IsConnected (hs : List (Header × Block)) (w w' : Worker) (events : List ChainEvent)
    : Type 0 where
  pub intersect : Point
  pub forwards : List ChainEvent
  pub known : lookup intersect.hash (cursor_map w.cursor []) ≡ some intersect.height
  pub are_events : StartsFrom w.cursor intersect events forwards
  pub carries : Carries hs forwards
  pub follow : Follows intersect.height forwards
  pub link : Links intersect.hash forwards
  pub moves_on : IsAt (last_point intersect forwards) w'

-- The headers and blocks of a fetch are the node's: the first page of the headers that it answers to
-- the hashes of the cursor, and the blocks that it answers to theirs, one for each.
pub record IsFetch (settings : Settings) (peer : Peer) (w w' : Worker) (events : List ChainEvent)
    : Type 0 where
  pub headers : List Header
  pub blocks : List Block
  pub gets_headers : peer.get_new_headers (map (λ p. p.hash) w.cursor) ≡ some headers
  pub gets_blocks :
      peer.get_blocks (map (λ h. h.block_hash) (take settings.block_page_size headers))
      ≡ some blocks
  pub one_each : length (take settings.block_page_size headers) ≡ length blocks
  pub connected : IsConnected (zip (take settings.block_page_size headers) blocks) w w' events

connect-IsConnected :
    (settings : Settings) (w w' : Worker) (first : Header) (block : Block)
    (hs : List (Header × Block)) (o : Option ℕ) (events : List ChainEvent)
    → lookup first.prev_blockhash (cursor_map w.cursor []) ≡ o
    → connect settings w first ((first, block) ∷ hs) o ≡ (w', ok events)
    → IsConnected ((first, block) ∷ hs) w w' events
connect-IsConnected settings w w' first block hs none events k e = absurd (cc e)
connect-IsConnected settings w w' first block hs (some height) events k e =
    elim (Result-cases (next_cursor settings (number (suc height) ((first, block) ∷ hs)))) [
      | inr (x, q) ↦ absurd (cc (rw q at e))
      | inl (cursor, q) ↦
          let intersect : Point = record { height = height; hash = first.prev_blockhash } in
          let v : Worker = record w { cursor = cursor } in
          let (rest, r, j) =
            prepend-ok (rollback_from w.cursor intersect)
              (forward (number (suc height) ((first, block) ∷ hs)) v) w' events (rw q at e) in
          let f : IsForward height ((first, block) ∷ hs) v w' rest =
            forward-IsForward height ((first, block) ∷ hs) v w' rest r in
          let (ps, c) =
            next_cursor-head settings ((first, block), suc height) (number (suc (suc height)) hs)
              cursor q in
          record {
            intersect = intersect;
            forwards = rest;
            known = k;
            are_events =
                subst (λ l. StartsFrom w.cursor intersect l rest) j
                  (rollback_from-StartsFrom w.cursor intersect rest);
            carries = f.carries;
            follow = f.follows;
            link = f.links;
            moves_on = (ps, f.same_cursor ∙ c ∙ ap (λ p. p ∷ ps) (sym (f.same_last intersect)));
          }
    ]

with_blocks-IsConnected :
    (settings : Settings) (w w' : Worker) (first : Header) (more : List Header)
    (o : Option (List Block)) (events : List ChainEvent)
    → with_blocks settings w first (first ∷ more) o ≡ (w', ok events)
    → (blocks : List Block) × (o ≡ some blocks)
      × (length (first ∷ more) ≡ length blocks)
      × IsConnected (zip (first ∷ more) blocks) w w' events
with_blocks-IsConnected settings w w' first more none events e = absurd (cc e)
with_blocks-IsConnected settings w w' first more (some []) events e =
    elim (Bool-cases (eqb (length (first ∷ more)) (length (let bs : List Block = [] in bs)))) [
      | inr b ↦ absurd (cc (rw b at e))
      | inl b ↦ absurd (ground arith)
    ]
with_blocks-IsConnected settings w w' first more (some (block ∷ blocks)) events e =
    elim (Bool-cases (eqb (length (first ∷ more)) (length (block ∷ blocks)))) [
      | inr b ↦ absurd (cc (rw b at e))
      | inl b ↦ (
        block ∷ blocks,
        refl,
        ground arith,
        connect-IsConnected settings w w' first block (zip more blocks) _ events refl (rw b at e),
      )
    ]

-- A header has an event.
some_events :
    (w w' : Worker) (first : Header) (rest : List Header) (blocks : List Block)
    (events : List ChainEvent)
    → length (first ∷ rest) ≡ length blocks
    → IsConnected (zip (first ∷ rest) blocks) w w' events
    → events ≢ []
some_events w w' first rest [] events n c = absurd (omega (arith, n))
some_events w w' first rest (block ∷ blocks) events n c =
    of_forwards c.forwards c.carries (starts w.cursor c.are_events)
  where
    of_forwards :
        (fs : List ChainEvent)
        → Carries ((first, block) ∷ zip rest blocks) fs
        → (events ≡ fs) ⊎ (events ≡ roll_back c.intersect ∷ fs)
        → events ≢ []
    of_forwards [] k e = absurd k
    of_forwards (f ∷ fs) k e = λ q. ground (arith, e, q)

    starts :
        (cursor : List Point)
        → StartsFrom cursor c.intersect events c.forwards
        → (events ≡ c.forwards) ⊎ (events ≡ roll_back c.intersect ∷ c.forwards)
    starts [] h = inl h
    starts (tip ∷ ps) (inl h) = inl h.1
    starts (tip ∷ ps) (inr h) = inr h.1

-- A fetch of pages that are not empty that succeeds answers no events and leaves the worker as it was
-- exactly where the node answers no headers to the cursor. Else its events carry the first page of
-- those headers and the blocks that the node answers to their hashes, in order and with their
-- transactions, each block with the hash of its header: a rollback to a point of the cursor exactly if
-- the first point of the cursor has another height, then the blocks at consecutive heights from it
-- on, the first of which names that point as the block before it, each under a tip that is not below
-- it. The new cursor begins with the last block sent.
pub fetch_chain_actions-IsFetch :
    (settings : Settings) (peer : Peer) (w w' : Worker) (events : List ChainEvent)
    → 0 < settings.block_page_size
    → fetch_chain_actions settings peer w ≡ (w', ok events)
    → ((peer.get_new_headers (map (λ p. p.hash) w.cursor) ≡ some []) × (w' ≡ w) × (events ≡ []))
      ⊎ ((events ≢ []) × IsFetch settings peer w w' events)
unfolding fetch_chain_actions
fetch_chain_actions-IsFetch settings peer w w' events p e =
    answered (peer.get_new_headers (map (λ p. p.hash) w.cursor)) refl e
  where
    paged :
        (size : ℕ) (first : Header) (more : List Header)
        → 0 < size
        → (rest : List Header) × (take size (first ∷ more) ≡ first ∷ rest)
    paged zero first more p = absurd (omega arith)
    paged (suc n) first more p = (take n more, refl)

    answered :
        (o : Option (List Header))
        → peer.get_new_headers (map (λ p. p.hash) w.cursor) ≡ o
        → with_headers settings peer w o ≡ (w', ok events)
        → ((peer.get_new_headers (map (λ p. p.hash) w.cursor) ≡ some []) × (w' ≡ w) × (events ≡ []))
          ⊎ ((events ≢ []) × IsFetch settings peer w w' events)
    answered none q e = absurd (cc e)
    answered (some []) q e = inl (q, cc e, cc e)
    answered (some (first ∷ more)) q e =
        let (rest, t) = paged settings.block_page_size first more p in
        let (blocks, g, n, c) =
          with_blocks-IsConnected settings w w' first rest
            (peer.get_blocks (map (λ h. h.block_hash) (first ∷ rest))) events
            (subst
              (λ hs.
                with_blocks settings w first hs (peer.get_blocks (map (λ h. h.block_hash) hs))
                ≡ (w', ok events))
              t e) in
        inr (
          some_events w w' first rest blocks events n c,
          record {
            headers = first ∷ more;
            blocks = blocks;
            gets_headers = q;
            gets_blocks = ap (λ hs. peer.get_blocks (map (λ h. h.block_hash) hs)) t ∙ g;
            one_each = ap length t ∙ n;
            connected = subst (λ hs. IsConnected (zip hs blocks) w w' events) (sym t) c;
          },
        )
