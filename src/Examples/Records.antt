-- ===== src/Examples/Records.antt =====
-- The histogram and the queue of the decision logs.
use adserver.Metrics.Page.{bucket_lines, line}
use adserver.Common.Decimal.{format_int}
use adserver.Types.Policy.{first_price}
use adserver.Common.Text.{bytes}
use adserver.Metrics.Laws.{observe_all, count_le, write_histogram-observe_all}
use adserver.DecisionLog.{DecisionLogger, DecisionLog, record_entry, run_logger, run_once}
use adserver.DecisionLog.Queue.{
  run_events, taken, IsValid, step, Event, records, run_events-taken, writes,
}
use adserver.Common.Int.{ℤ, pos}
use adserver.Metrics.{write_histogram, latency_upper_us}
use adserver.Common.{refl, false, [], ◌∷◌, ◌≡◌, ◌++◌, List, map, arith}

abbrev latencies : List ℤ
latencies = pos 3 ∷ pos 70 ∷ pos 1000000 ∷ []

write_histogram-observe_all_example :
    (write_histogram (observe_all latencies) 3).buckets
    ≡ map (λ u. (u, count_le u latencies)) latency_upper_us
write_histogram-observe_all_example = write_histogram-observe_all latencies 3 (omega arith)

abbrev pub entry : ℤ → DecisionLog
entry price = record {
  request_id = bytes "r";
  placement_id = bytes "top";
  pricing_model = first_price;
  eligible_candidates = 1;
  winner_bid_id = bytes "a";
  winner_deal_id = [];
  winner_priority = pos 0;
  effective_price_micros = price;
  clearing_price_micros = price;
  no_bid_reason = [];
  served_stale = false;
  snapshot_age_ms = pos 0;
  dynamic_bidder_id = [];
}

abbrev logger : DecisionLogger
logger = record {
  capacity = 1;
  entries = [];
  written = [];
  dropped = 0;
  is_closed = false;
  is_done = false;
}

logger-IsValid : IsValid logger
logger-IsValid = record { room = omega arith; bounded = omega arith }

-- The second entry finds the queue full.
abbrev events : List Event
events = records (entry (pos 1)) ∷ records (entry (pos 2)) ∷ writes ∷ records (entry (pos 3)) ∷ []

taken-events : taken logger events ≡ entry (pos 1) ∷ entry (pos 3) ∷ []
unfolding taken step record_entry run_logger run_once
taken-events = refl

run_events-taken_example :
    ((run_events logger events).written ++ (run_events logger events).entries ≡ taken logger events)
    × IsValid (run_events logger events)
run_events-taken_example = run_events-taken logger events logger-IsValid refl

-- A line of the metrics page.
bucket_lines-one :
    bucket_lines (bytes "latency") ((pos 50, 12) ∷ [])
    ≡ bytes "latency_bucket{le=" ++ (34 ∷ bytes "50") ++ (34 ∷ bytes "} 12") ++ (10 ∷ [])
unfolding bucket_lines line format_int
bucket_lines-one = refl
