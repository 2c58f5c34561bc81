-- ===== src/Pull/Forwards.antt =====
-- src/sync/stages/pull/stage.rs: the events for the new blocks of one fetch.
use maestro_symphony.Prelude.{
  ℕ, suc, ◌≡◌, ◌≤◌, refl, sym, subst, ◌∙◌, arith, List, [], ◌∷◌, map, Bool-cases, inl, inr, Bytes,
  list_beq, list_beq_iff, list_eq, nat_eq, ok, err,
}
use maestro_symphony.Core.{Point}
use maestro_symphony.Worker.Stage.{ChainEvent, roll_forward, roll_back, mempool_blocks}
use maestro_symphony.Pull.Fetch.{
  Header, Block, Worker, Fetched, number, point_of, last_of, raise_tip, add_event, forward,
}

-- New blocks, one height after the other, under a tip that is not below them.
abbrev pub Follows : ℕ → List ChainEvent → Type 0
Follows height [] = Unit
Follows height (roll_forward point prev txs tip ∷ events) =
    (point.height ≡ suc height) × (point.height ≤ tip.height) × Follows point.height events
Follows height (roll_back point ∷ events) = ⊥
Follows height (mempool_blocks info bs ∷ events) = ⊥

-- The first block names the hash as that of the block before it.
abbrev pub Links : Bytes → List ChainEvent → Type 0
Links hash (roll_forward point prev txs tip ∷ events) = prev ≡ hash
Links hash _ = Unit

-- Each event carries the header and the block that the node answered in its place: the block is the
-- header's, and the event has its hash, the hash of the block before it, and its transactions.
abbrev pub Carries : List (Header × Block) → List ChainEvent → Type 0
Carries [] [] = Unit
Carries ((header, block) ∷ hs) (roll_forward point prev txs tip ∷ events) =
    (point.hash ≡ header.block_hash)
    × (block.block_hash ≡ header.block_hash)
    × (prev ≡ header.prev_blockhash)
    × (txs ≡ block.txdata)
    × Carries hs events
Carries hs events = ⊥

abbrev pub LinksTo : List (Header × Block) → List ChainEvent → Type 0
LinksTo [] events = Unit
LinksTo ((first, block) ∷ hs) events = Links first.prev_blockhash events

abbrev pub last_point : Point → List ChainEvent → Point
last_point p [] = p
last_point p (roll_forward point prev txs tip ∷ events) = last_point point events
last_point p (_ ∷ events) = last_point p events

add_event-ok :
    (event : ChainEvent) (r : Fetched) (w : Worker) (events : List ChainEvent)
    → add_event event r ≡ (w, ok events)
    → (rest : List ChainEvent) × (r ≡ (w, ok rest)) × (event ∷ rest ≡ events)
add_event-ok event (v, ok rest) w events e = (rest, cc e, cc e)
add_event-ok event (v, err x) w events e = absurd (cc e)

raise_tip-le : (point : Point) (w : Worker) → point.height ≤ (raise_tip point w).tip.height
raise_tip-le point w = ground arith

raise_tip-cursor : (point : Point) (w : Worker) → (raise_tip point w).cursor ≡ w.cursor
raise_tip-cursor point w = ground arith

-- What the loop over the blocks answers.
pub record IsForward (height : ℕ) (hs : List (Header × Block)) (w w' : Worker)
    (events : List ChainEvent) : Type 0 where
  pub follows : Follows height events
  pub same_cursor : w'.cursor ≡ w.cursor
  pub same_last :
      (p : Point) → last_point p events ≡ last_of p (map point_of (number (suc height) hs))
  pub links : LinksTo hs events
  pub carries : Carries hs events

pub forward-IsForward :
    (height : ℕ) (hs : List (Header × Block)) (w w' : Worker) (events : List ChainEvent)
    → forward (number (suc height) hs) w ≡ (w', ok events)
    → IsForward height hs w w' events
unfolding forward
forward-IsForward height [] w w' events e =
    subst (IsForward height [] w w') {x = []} (cc e)
      (record { follows = tt; same_cursor = cc e; same_last = λ p. refl; links = tt; carries = tt })
forward-IsForward height ((header, block) ∷ hs) w w' events e =
    elim (Bool-cases (list_beq header.block_hash block.block_hash)) [
      | inr b ↦ absurd (cc (rw b at e))
      | inl b ↦
          let point : Point = record { height = suc height; hash = header.block_hash } in
          let u : Worker = raise_tip point w in
          let event : ChainEvent = roll_forward point header.prev_blockhash block.txdata u.tip in
          let (rest, r, q) =
            add_event-ok event (forward (number (suc (suc height)) hs) u) w' events (rw b at e) in
          let k : IsForward (suc height) hs u w' rest =
            forward-IsForward (suc height) hs u w' rest r in
          subst (IsForward height ((header, block) ∷ hs) w w') q (record {
            follows = (refl, raise_tip-le point w, k.follows);
            same_cursor = k.same_cursor ∙ raise_tip-cursor point w;
            same_last = λ p. k.same_last point;
            links = refl;
            carries = (
              refl,
              sym ((list_beq_iff header.block_hash block.block_hash).0 b),
              refl,
              refl,
              k.carries,
            );
          })
    ]
