-- ===== src/Server/Balance.antt =====
-- internal/ads/server.go: the counters and the log after an auction, a write of the log, and what changes
-- neither.
use adserver.Common.Int.{ℤ}
use mathlib.Core.Path.{subst}
use adserver.Common.Word.{inc64}
use adserver.Metrics.{record_auction, Metrics}
use adserver.Auctioneer.{AuctionDecision, run, filled}
use adserver.Store.Client.{Registry, StoreError}
use adserver.Server.Bids.{mutated, count_mutation}
use adserver.DecisionLog.{DecisionLogger, run_logger, record_entry, DecisionLog, run_once}
use adserver.Common.Text.{Str}
use adserver.Types.Bid.{AuctionRequest, is_valid_request}
use adserver.Server.{
  Readings, auction_valid, Server, auction, Body, record_decision, log_of, recorded, count_decision,
  ask_engine, request_id, refuse, decode_json,
}
use adserver.Common.{
  false, some, none, [], ◌∷◌, ◌≡◌, ◌+◌, ◌^◌, Option, ◌%◌, length, List, Bool, inl, inr, ◌++◌,
  Bool-cases, ltb, arith, length-append, refl, true, ap, ◌∙◌, sym, Option-cases,
}

unfoldable pub written_on : Option DecisionLogger → Option DecisionLogger
written_on none = none
written_on (some d) = some (run_logger d)

-- Every auction is a fill or a no-bid, and has one entry in the log, queued or written, or counts as
-- dropped in the log and in the metrics alike.
pub record IsBalanced (s : Server) : Type 0 where
  pub filled_or_not : s.metrics.auctions ≡ (s.metrics.filled + s.metrics.no_bid) % 2 ^ 64
  pub logger : DecisionLogger
  pub logs_to : s.decision_logger ≡ some logger
  pub is_open : logger.is_closed ≡ false
  pub dropped_alike : s.metrics.decision_log_dropped ≡ logger.dropped
  pub logged :
      s.metrics.auctions ≡ (length logger.written + length logger.entries + logger.dropped) % 2 ^ 64

recorded_room :
    (s : Server) (g : DecisionLogger) (entry : DecisionLog)
    → s.decision_logger ≡ some g
    → g.is_closed ≡ false
    → ltb (length g.entries) g.capacity ≡ true
    → recorded s (record_entry s.decision_logger entry)
      ≡ (record s { decision_logger = some (record g { entries = g.entries ++ entry ∷ [] }) }, true)
unfolding recorded record_entry
recorded_room s g entry q h k = ap (λ o. recorded s (record_entry o entry)) q ∙ rw (h, k) refl

recorded_full :
    (s : Server) (g : DecisionLogger) (entry : DecisionLog)
    → s.decision_logger ≡ some g
    → g.is_closed ≡ false
    → ltb (length g.entries) g.capacity ≡ false
    → recorded s (record_entry s.decision_logger entry) ≡ (
      record s {
        decision_logger = some (record g { dropped = inc64 g.dropped });
        metrics = record s.metrics { decision_log_dropped = inc64 s.metrics.decision_log_dropped };
      },
      true,
    )
unfolding recorded record_entry
recorded_full s g entry q h k = ap (λ o. recorded s (record_entry o entry)) q ∙ rw (h, k) refl

-- The state between an auction's entry in the log and its counters.
abbrev OneMore : Server → Server → Type 0
OneMore s s' =
    (logger : DecisionLogger) × (s'.decision_logger ≡ some logger)
    × (logger.is_closed ≡ false)
    × (s'.metrics.decision_log_dropped ≡ logger.dropped)
    × ((length logger.written + length logger.entries + logger.dropped) % 2 ^ 64
        ≡ (s.metrics.auctions + 1) % 2 ^ 64)
    × (s'.metrics.auctions ≡ s.metrics.auctions)
    × (s'.metrics.filled ≡ s.metrics.filled)
    × (s'.metrics.no_bid ≡ s.metrics.no_bid)

record_decision-OneMore :
    (s : Server) (g : DecisionLogger) (id placement : Str) (d : AuctionDecision)
    → s.decision_logger ≡ some g
    → g.is_closed ≡ false
    → s.metrics.decision_log_dropped ≡ g.dropped
    → s.metrics.auctions ≡ (length g.written + length g.entries + g.dropped) % 2 ^ 64
    → OneMore s (record_decision s id placement d).0
unfolding record_decision inc64
record_decision-OneMore s g id placement d h closed same logged =
    let entry = log_of id placement s.policy d d.bid in
    elim (Bool-cases (ltb (length g.entries) g.capacity)) [
      | inl t ↦
          subst (λ x. OneMore s x.0) (sym (recorded_room s g entry h closed t))
            (
              record g { entries = g.entries ++ entry ∷ [] },
              refl,
              closed,
              same,
              omega (arith, logged, length-append g.entries (entry ∷ [])),
              refl,
              refl,
              refl,
            )
      | inr t ↦
          subst (λ x. OneMore s x.0) (sym (recorded_full s g entry h closed t))
            (
              record g { dropped = inc64 g.dropped },
              refl,
              closed,
              ap inc64 same,
              omega (arith, logged),
              refl,
              refl,
              refl,
            )
    ]

record_auction-balance :
    (m m' : Metrics) (won : Bool) (x y : ℤ)
    → m'.auctions ≡ m.auctions
    → m'.filled ≡ m.filled
    → m'.no_bid ≡ m.no_bid
    → m.auctions ≡ (m.filled + m.no_bid) % 2 ^ 64
    → let r = record_auction m' won x y in r.auctions ≡ (r.filled + r.no_bid) % 2 ^ 64
unfolding record_auction inc64
record_auction-balance m m' true x y a f n h = rw (a, f, n) (omega (arith, h))
record_auction-balance m m' false x y a f n h = rw (a, f, n) (omega (arith, h))

auction_valid-IsBalanced :
    (s : Server) (t : Readings) (header : Str) (request : AuctionRequest)
    → IsBalanced s
    → IsBalanced (auction_valid s t header request).0
unfolding auction_valid record_auction inc64 count_decision
auction_valid-IsBalanced s t header request v =
    let (engine, dynamic) = ask_engine s.bidder_engine t request in
    let (cache, d) = run s.policy s.cache t.cache_now t.unix_now request dynamic in
    let (number, id) = request_id s.request_number header in
    let s1 : Server = record s {
      bidder_engine = engine;
      cache = cache;
      request_number = number;
      metrics = count_decision s.metrics d;
    } in
    let (g, h, still_open, same, logged, a, f, n) =
      record_decision-OneMore s1 v.logger id request.placement_id d v.logs_to v.is_open
        v.dropped_alike v.logged in
    record {
      filled_or_not =
          record_auction-balance s.metrics (record_decision s1 id request.placement_id d).0.metrics
            (filled d) t.selection_us t.handler_us a f n v.filled_or_not;
      logger = g;
      logs_to = h;
      is_open = still_open;
      dropped_alike = same;
      logged = ap inc64 a ∙ sym logged;
    }

-- The other requests and the log's goroutine.
pub calm-IsBalanced :
    (s s' : Server)
    → s'.metrics.auctions ≡ s.metrics.auctions
    → s'.metrics.filled ≡ s.metrics.filled
    → s'.metrics.no_bid ≡ s.metrics.no_bid
    → s'.metrics.decision_log_dropped ≡ s.metrics.decision_log_dropped
    → s'.decision_logger ≡ s.decision_logger
    → IsBalanced s
    → IsBalanced s'
calm-IsBalanced s s' a f n d l v = record {
  filled_or_not = rw (a, f, n) v.filled_or_not;
  logger = v.logger;
  logs_to = l ∙ v.logs_to;
  is_open = v.is_open;
  dropped_alike = d ∙ v.dropped_alike;
  logged = a ∙ v.logged;
}

pub auction-IsBalanced :
    (s : Server) (t : Readings) (header : Str) (body : Body AuctionRequest)
    → IsBalanced s
    → IsBalanced (auction s t header body).0
unfolding auction refuse
auction-IsBalanced s t header body v = elim (Option-cases (decode_json body)) [
  | inl e ↦ rw (e, auction) (calm-IsBalanced s (refuse s) refl refl refl refl refl v)
  | inr (request, e) ↦ elim (Bool-cases (is_valid_request request)) [
    | inr n ↦ rw (e, n, auction) (calm-IsBalanced s (refuse s) refl refl refl refl refl v)
    | inl y ↦ rw (e, y, auction) (auction_valid-IsBalanced s t header request v)
  ]
]

pub mutated-IsBalanced :
    (s : Server) (placement : Str) (r : Registry) (o : Option StoreError)
    → IsBalanced s
    → IsBalanced (mutated s placement r o)
unfolding mutated count_mutation
mutated-IsBalanced s placement r none v = calm-IsBalanced s _ refl refl refl refl refl v
mutated-IsBalanced s placement r (some e) v = calm-IsBalanced s _ refl refl refl refl refl v

run_logger-balance :
    (g : DecisionLogger)
    → g.is_closed ≡ false
    → ((run_logger g).is_closed ≡ false)
      × ((run_logger g).dropped ≡ g.dropped)
      × (length (run_logger g).written + length (run_logger g).entries
          ≡ length g.written + length g.entries)
unfolding run_logger
run_logger-balance g h = go g.entries refl
  where
    go :
        (l : List DecisionLog)
        → g.entries ≡ l
        → ((run_once g l).is_closed ≡ false)
          × ((run_once g l).dropped ≡ g.dropped)
          × (length (run_once g l).written + length (run_once g l).entries
              ≡ length g.written + length g.entries)
    go [] e = rw h (refl, refl, refl)
    go (x ∷ xs) e = (h, refl, omega (arith, length-append g.written (x ∷ []), ap length e))

pub logs-IsBalanced :
    (s : Server)
    → IsBalanced s
    → IsBalanced (record s { decision_logger = written_on s.decision_logger })
unfolding written_on
logs-IsBalanced s v =
    let k = run_logger-balance v.logger v.is_open in
    record {
      filled_or_not = v.filled_or_not;
      logger = run_logger v.logger;
      logs_to = ap written_on v.logs_to;
      is_open = k.0;
      dropped_alike = v.dropped_alike ∙ sym k.1;
      logged = omega (arith, v.logged, k.1, k.2);
    }
