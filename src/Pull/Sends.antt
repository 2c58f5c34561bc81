-- ===== src/Pull/Sends.antt =====
-- src/sync/stages/pull/stage.rs: what `schedule` answers, in every case.
use maestro_symphony.Prelude.{
  ◌≡◌, ◌≢◌, refl, sym, ap, List, [], ◌∷◌, ◌++◌, Option, none, some, Bool, true, false, Bytes,
  Result, ok, err, ◌⊎◌, inl, inr, subst, if◌then◌else◌, Option-cases,
}
use maestro_symphony.Core.{Point, BlockTxs}
use maestro_symphony.Worker.Stage.{ChainEvent, mempool_blocks, WorkerError, worker_restart}
use maestro_symphony.Pull.Fetch.{Header, Settings, Worker, Fetched, fetch_chain_actions}
use maestro_symphony.Pull.Schedule.{
  Node, Signals, Session, Scheduled, WorkSchedule, done, idle, send_unit, finish, with_template,
  with_mempool, before_tip, from_tip, with_enabled, when_initialised, when_synced, refresh_tip,
  highest, node_tip, node_syncing, schedule_events,
}

module _ (settings : Settings) (signals : Signals) (node : Node) (s : Session) where
  -- The node answers headers after the genesis block, or did before.
  abbrev pub IsReady : Type 0
  IsReady =
      (s.initialised ≡ true)
      ⊎ ((s.initialised ≡ false)
          × (h : Header) × (hs : List Header) × (node.peer.get_new_headers
                (settings.genesis_hash ∷ [])
              ≡ some (h ∷ hs)))

  -- Before the tip, the events of a fetch from the session's worker, which are some.
  pub record IsBeforeTip (s' : Session) (events : List ChainEvent) : Type 0 where
    pub not_reached : s.tip_reached ≡ false
    pub fetches : fetch_chain_actions settings node.peer s.worker ≡ (s'.worker, ok events)
    pub are_some : events ≢ []
    pub still_not : s'.tip_reached ≡ false

  -- The tip was reached, or a fetch answers no events, and leaves a worker.
  abbrev pub ReachesTip : Worker → Type 0
  ReachesTip before =
      ((s.tip_reached ≡ true) × (before ≡ s.worker))
      ⊎ ((s.tip_reached ≡ false)
          × (fetch_chain_actions settings node.peer s.worker ≡ (before, ok [])))

  -- At the tip, the events of a fetch after the waiting, and behind them, exactly if the mempool is
  -- enabled, the blocks of the node's template.
  pub record IsAtTip (s' : Session) (events : List ChainEvent) : Type 0 where
    pub before : Worker
    pub reaches : ReachesTip before
    pub fetched : List ChainEvent
    pub fetches : fetch_chain_actions settings node.later_peer before ≡ (s'.worker, ok fetched)
    pub reached : s'.tip_reached ≡ true
    pub sent :
        ((signals.mempool_enabled ≡ false) × (events ≡ fetched))
        ⊎ ((signals.mempool_enabled ≡ true)
            × (b : Bytes × BlockTxs) × (node.block_template ≡ some b)
            × (events
                ≡ fetched
                  ++ (mempool_blocks
                        (record { timestamp = signals.timestamp; tip = b.0 })
                        (b.1 ∷ [])
                      ∷ [])))

  pub record IsFound (s' : Session) (events : List ChainEvent) : Type 0 where
    pub ready : IsReady
    pub initialised : s'.initialised ≡ true
    pub found : IsBeforeTip s' events ⊎ IsAtTip s' events

  -- The node is found to be syncing, and only the tip moves, to the highest that it answers.
  pub record IsSyncing (s' : Session) : Type 0 where
    pub not_initialised : s.initialised ≡ false
    pub syncs : node.peer.get_new_headers (settings.genesis_hash ∷ []) ≡ some []
    pub tips : List Point
    pub answers_tips : node.chain_tips ≡ some tips
    pub tip : Point
    pub is_highest : highest tips ≡ some tip
    pub moves : s' ≡ record s { worker = record s.worker { tip = tip } }

  -- What a step answers, by the session that it leaves.
  abbrev pub Answers : Session → WorkSchedule → Type 0
  Answers s' done = (signals.should_shutdown ≡ true) × (s' ≡ s)
  Answers s' idle = (signals.should_shutdown ≡ false) × (IsSyncing s' ⊎ IsFound s' [])
  Answers s' (send_unit events) =
      (signals.should_shutdown ≡ false) × (events ≢ []) × IsFound s' events

  abbrev Finds : Scheduled → Type 0
  Finds (s', ok (send_unit events)) = (events ≢ []) × IsFound s' events
  Finds (s', ok idle) = IsSyncing s' ⊎ IsFound s' []
  Finds (s', ok done) = ⊥
  Finds (s', err x) = Unit

  finish-Finds :
      (s' : Session) (events : List ChainEvent) → IsFound s' events → Finds (finish s' events)
  finish-Finds s' [] h = inr h
  finish-Finds s' (e ∷ es) h = ((λ q. absurd (cc q)), h)

  -- A session that is ready to fetch.
  record IsNext (t : Session) : Type 0 where
    ready : IsReady
    starts : t.initialised ≡ true

  with_template-Finds :
      (t : Session) (before : Worker) (events : List ChainEvent) (o : Option (Bytes × BlockTxs))
      → IsNext t
      → t.tip_reached ≡ true
      → ReachesTip before
      → fetch_chain_actions settings node.later_peer before ≡ (t.worker, ok events)
      → signals.mempool_enabled ≡ true
      → node.block_template ≡ o
      → Finds (with_template signals t events o)
  with_template-Finds t before events none n r b e m q = tt
  with_template-Finds t before events (some block) n r b e m q = finish-Finds t _ (record {
    ready = n.ready;
    initialised = n.starts;
    found = inr (record {
      before = before;
      reaches = b;
      fetched = events;
      fetches = e;
      reached = r;
      sent = inr (m, block, q, refl);
    });
  })

  with_enabled-Finds :
      (t : Session) (before : Worker) (events : List ChainEvent) (enabled : Bool)
      → IsNext t
      → t.tip_reached ≡ true
      → ReachesTip before
      → fetch_chain_actions settings node.later_peer before ≡ (t.worker, ok events)
      → signals.mempool_enabled ≡ enabled
      → Finds (with_enabled signals node t events enabled)
  with_enabled-Finds t before events true n r b e m =
      with_template-Finds t before events node.block_template n r b e m refl
  with_enabled-Finds t before events false n r b e m = finish-Finds t events (record {
    ready = n.ready;
    initialised = n.starts;
    found = inr (record {
      before = before;
      reaches = b;
      fetched = events;
      fetches = e;
      reached = r;
      sent = inl (m, refl);
    });
  })

  with_mempool-Finds :
      (t : Session) (f : Fetched)
      → IsNext t
      → t.tip_reached ≡ true
      → ReachesTip t.worker
      → fetch_chain_actions settings node.later_peer t.worker ≡ f
      → Finds (with_mempool signals node t f)
  with_mempool-Finds t (w, err x) n r b e = tt
  with_mempool-Finds t (w, ok events) n r b e =
      with_enabled-Finds (record t { worker = w }) t.worker events signals.mempool_enabled
        (record { ready = n.ready; starts = n.starts }) r b e refl

  before_tip-Finds :
      (t : Session) (f : Fetched)
      → IsNext t
      → s.tip_reached ≡ false
      → t.tip_reached ≡ false
      → fetch_chain_actions settings node.peer s.worker ≡ f
      → Finds (before_tip settings signals node t f)
  before_tip-Finds t (w, err x) n r r' e = tt
  before_tip-Finds t (w, ok []) n r r' e =
      with_mempool-Finds (record t { worker = w; tip_reached = true }) _
        (record { ready = n.ready; starts = n.starts }) refl (inr (r, e)) refl
  before_tip-Finds t (w, ok (v ∷ vs)) n r r' e = (
    (λ q. absurd (cc q)),
    record {
      ready = n.ready;
      initialised = n.starts;
      found =
          inl (record {
            not_reached = r;
            fetches = e;
            are_some = λ q. absurd (cc q);
            still_not = r';
          });
    },
  )

  from_tip-Finds :
      (t : Session) (tip_reached : Bool)
      → IsNext t
      → t.worker ≡ s.worker
      → s.tip_reached ≡ tip_reached
      → t.tip_reached ≡ tip_reached
      → Finds (from_tip settings signals node t tip_reached)
  from_tip-Finds t true n w r r' = with_mempool-Finds t _ n r' (inl (r, w)) refl
  from_tip-Finds t false n w r r' =
      before_tip-Finds t _ n r r' (ap (fetch_chain_actions settings node.peer) (sym w))

  refresh_tip-Finds :
      (o : Option (List Point))
      → s.initialised ≡ false
      → node.peer.get_new_headers (settings.genesis_hash ∷ []) ≡ some []
      → node.chain_tips ≡ o
      → Finds (refresh_tip s (node_tip o))
  refresh_tip-Finds none i e q = tt
  refresh_tip-Finds (some tips) i e q = elim (Option-cases (highest tips)) [
    | inl h ↦ refreshed (err worker_restart) (rw (h, node_tip) refl) tt
    | inr (tip, h) ↦ refreshed (ok tip) (rw (h, node_tip) refl) (
        inl (record {
          not_initialised = i;
          syncs = e;
          tips = tips;
          answers_tips = q;
          tip = tip;
          is_highest = h;
          moves = refl;
        }))
  ]
    where
      refreshed :
          (r : Result WorkerError Point)
          → node_tip (some tips) ≡ r
          → Finds (refresh_tip s r)
          → Finds (refresh_tip s (node_tip (some tips)))
      refreshed r e h = subst (λ x. Finds (refresh_tip s x)) (sym e) h

  when_synced-Finds :
      (o : Option (List Header))
      → s.initialised ≡ false
      → node.peer.get_new_headers (settings.genesis_hash ∷ []) ≡ o
      → Finds (when_synced settings signals node s (node_syncing o))
  when_synced-Finds none i e = tt
  when_synced-Finds (some []) i e = refresh_tip-Finds node.chain_tips i e refl
  when_synced-Finds (some (h ∷ hs)) i e =
      from_tip-Finds (record s { initialised = true }) s.tip_reached
        (record { ready = inr (i, h, hs, e); starts = refl }) refl refl refl

  when_initialised-Finds :
      (initialised : Bool)
      → s.initialised ≡ initialised
      → Finds (when_initialised settings signals node s initialised)
  when_initialised-Finds true i =
      from_tip-Finds s s.tip_reached (record { ready = inl i; starts = i }) refl refl refl
  when_initialised-Finds false i = when_synced-Finds _ i refl

  Finds-Answers :
      (r : Scheduled) (s' : Session) (work : WorkSchedule)
      → signals.should_shutdown ≡ false
      → Finds r
      → r ≡ (s', ok work)
      → Answers s' work
  Finds-Answers r s' work q h e = found s' work (subst Finds e h)
    where
      found : (s' : Session) (work : WorkSchedule) → Finds (s', ok work) → Answers s' work
      found s' done h = absurd h
      found s' idle h = (q, h)
      found s' (send_unit events) h = (q, h.0, h.1)

  -- A step that succeeds ends the stage exactly if it is told to stop. Else it is idle while the node
  -- that was not found synced answers no headers after the genesis block, the tip being refreshed; or
  -- it sends, if they are any, the events of one fetch: before the tip those of a fetch from the
  -- session's worker, and once that has none, or the tip was reached, those of a fetch after the
  -- waiting, from the worker that the former left, followed exactly if the mempool is enabled by the
  -- block of the node's template. The session has the worker that the last fetch left, and what is
  -- known of the node's sync and of the tip.
  pub schedule_events-Answers :
      (s' : Session) (work : WorkSchedule)
      → schedule_events settings signals node s ≡ (s', ok work)
      → Answers s' work
  unfolding schedule_events
  schedule_events-Answers s' work e = running signals.should_shutdown refl e
    where
      running :
          (stop : Bool)
          → signals.should_shutdown ≡ stop
          → (if stop then (s, ok done) else when_initialised settings signals node s s.initialised)
            ≡ (s', ok work)
          → Answers s' work
      running true q e = stopped work (cc e) (cc e)
        where
          stopped : (work : WorkSchedule) → work ≡ done → s' ≡ s → Answers s' work
          stopped done w h = (q, h)
          stopped idle w h = absurd (cc w)
          stopped (send_unit events) w h = absurd (cc w)
      running false q e = Finds-Answers _ s' work q (when_initialised-Finds s.initialised refl) e
