-- ===== src/Pull/Peer/Progress.antt =====
-- src/sync/stages/pull/peer.rs: the tasks of a session do not wait for each other in a circle.
use maestro_symphony.Prelude.{
  ℕ, ◌<◌, ◌≤◌, ◌≡◌, refl, subst, sym, arith, List, [], ◌∷◌, Option, none, some, true, length, ◌+◌,
  ◌*◌, zero, suc, length-append, ◌⊎◌, inl, inr,
}
use native.Mathlib.Decide.{dec_lt}
use maestro_symphony.Pull.Peer.{DecodedMessage, Request, NetworkMessage}
use maestro_symphony.Pull.Peer.System.{
  Hand, free, to_egress, to_headers, to_blocks, Session, TaskStep, deliver, take_request,
  take_message, relay_message, relay_headers, relay_block, write_message,
}

abbrev pub CanMove : Session → Type 0
CanMove s = (t : Session) × TaskStep s t

-- The client has not received twenty headers messages, or twenty blocks.
abbrev pub ClientIsBehind : Session → Type 0
ClientIsBehind s = (20 ≤ length s.headers) ⊎ (20 ≤ length s.blocks)

pub record IsRunning (s : Session) : Type 0 where
  pub works : s.failed ≡ none
  pub reads : s.ingress_open ≡ true
  pub writes : s.egress_open ≡ true
  pub listens : s.client_open ≡ true

-- Nothing is in transit.
pub record IsQuiet (s : Session) : Type 0 where
  pub no_request : s.requests ≡ []
  pub no_reading : s.reading ≡ none
  pub no_ingress : s.ingress ≡ []
  pub no_hand : s.hand ≡ free
  pub no_egress : s.egress ≡ []

module _ (s : Session) (run : IsRunning s) where
  abbrev Goes : Type 0
  Goes = CanMove s ⊎ (ClientIsBehind s ⊎ IsQuiet s)

  writes_out : (m : NetworkMessage) (ms : List NetworkMessage) → s.egress ≡ m ∷ ms → Goes
  writes_out m ms e = inl (_, write_message m ms run.writes e)

  egress-Goes :
      (ms : List NetworkMessage)
      → s.requests ≡ []
      → s.reading ≡ none
      → s.ingress ≡ []
      → s.hand ≡ free
      → s.egress ≡ ms
      → Goes
  egress-Goes [] q r i h e =
      inr (
        inr (record { no_request = q; no_reading = r; no_ingress = i; no_hand = h; no_egress = e }))
  egress-Goes (m ∷ ms) q r i h e = writes_out m ms e

  requests-Goes :
      (rs : List Request)
      → s.reading ≡ none
      → s.ingress ≡ []
      → s.hand ≡ free
      → s.requests ≡ rs
      → Goes
  requests-Goes [] r i h e = egress-Goes s.egress e r i h refl
  requests-Goes (q ∷ rs) r i h e = inl (_, take_request q rs run.works h e)

  reading-Goes : (o : Option DecodedMessage) → s.ingress ≡ [] → s.hand ≡ free → s.reading ≡ o → Goes
  reading-Goes none i h e = requests-Goes s.requests e i h refl
  reading-Goes (some m) i h e =
      inl (_, deliver m run.reads run.works e (subst (λ q. length q < 1) (sym i) (omega arith)))

  ingress-Goes : (ms : List DecodedMessage) → s.hand ≡ free → s.ingress ≡ ms → Goes
  ingress-Goes [] h e = reading-Goes s.reading e h refl
  ingress-Goes (m ∷ ms) h e = inl (_, take_message m ms run.works h e)

  relay-Goes :
      (m : NetworkMessage) (ms : List NetworkMessage) → s.hand ≡ to_egress m → s.egress ≡ ms → Goes
  relay-Goes m [] h e =
      inl (
        _,
        relay_message m run.works h run.writes (subst (λ q. length q < 1) (sym e) (omega arith)),
      )
  relay-Goes m (v ∷ vs) h e = writes_out v vs e

  hand-Goes : (h : Hand) → s.hand ≡ h → Goes
  hand-Goes free h = ingress-Goes s.ingress h refl
  hand-Goes (to_egress m) h = relay-Goes m s.egress h refl
  hand-Goes (to_headers hs) h = elim (dec_lt (length s.headers) 20) [
    | yes l ↦ inl (_, relay_headers hs run.works h run.listens l)
    | no l ↦ inr (inl (inl (omega arith)))
  ]
  hand-Goes (to_blocks raw) h = elim (dec_lt (length s.blocks) 20) [
    | yes l ↦ inl (_, relay_block raw run.works h run.listens l)
    | no l ↦ inr (inl (inr (omega arith)))
  ]

can_move : (s : Session) → IsRunning s → CanMove s ⊎ (ClientIsBehind s ⊎ IsQuiet s)
can_move s run = hand-Goes s run s.hand refl

-- How many steps what is in transit is from its end, at most.
abbrev pub hand_distance : Hand → ℕ
hand_distance free = 0
hand_distance h = 2

abbrev pub reading_distance : Option DecodedMessage → ℕ
reading_distance none = 0
reading_distance (some m) = 4

abbrev pub distance : Session → ℕ
distance s =
    3 * length s.requests
    + reading_distance s.reading
    + 3 * length s.ingress
    + hand_distance s.hand
    + length s.egress

TaskStep-distance : {s t : Session} → TaskStep s t → distance t < distance s
TaskStep-distance {s} (deliver m p f r n) = grind (arith, length-append)
TaskStep-distance {s} (take_request r rs f h e) = grind (arith, length-append)
TaskStep-distance {s} (take_message m ms f h e) = grind (arith, length-append)
TaskStep-distance {s} (relay_message m f h c n) = grind (arith, length-append)
TaskStep-distance {s} (relay_headers hs f h c n) = grind (arith, length-append)
TaskStep-distance {s} (relay_block raw f h c n) = grind (arith, length-append)
TaskStep-distance {s} (write_message m ms c e) = grind (arith, length-append)

TaskStep-IsRunning : {s t : Session} → TaskStep s t → IsRunning s → IsRunning t
TaskStep-IsRunning {s} (deliver m p f r n) run = grind arith
TaskStep-IsRunning {s} (take_request r rs f h e) run = grind arith
TaskStep-IsRunning {s} (take_message m ms f h e) run = grind arith
TaskStep-IsRunning {s} (relay_message m f h c n) run = grind arith
TaskStep-IsRunning {s} (relay_headers hs f h c n) run = grind arith
TaskStep-IsRunning {s} (relay_block raw f h c n) run = grind arith
TaskStep-IsRunning {s} (write_message m ms c e) run = grind arith

pub data TaskSteps : Session → Session → Type 0 where
  here : {s : Session} → TaskSteps s s
  there : {s t u : Session} → TaskStep s t → TaskSteps t u → TaskSteps s u

drains_within :
    (n : ℕ) (s : Session)
    → distance s < n
    → IsRunning s
    → (t : Session) × TaskSteps s t × (ClientIsBehind t ⊎ IsQuiet t)
drains_within zero s l run = absurd (omega arith)
drains_within (suc n) s l run = elim (can_move s run) [
  | inr end ↦ (s, here, end)
  | inl (t, e) ↦
      let (u, es, end) =
        drains_within n t (omega (arith, TaskStep-distance e)) (TaskStep-IsRunning e run) in
      (u, there e es, end)
]

-- No session is stuck: while the socket, the handler and the client are there, however much is in
-- transit, the tasks can move on until nothing is, or until a client that does not receive has
-- twenty headers messages or twenty blocks waiting.
pub session_drains :
    (s : Session) → IsRunning s → (t : Session) × TaskSteps s t × (ClientIsBehind t ⊎ IsQuiet t)
session_drains s run = drains_within (suc (distance s)) s (omega arith) run
