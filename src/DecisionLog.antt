-- ===== src/DecisionLog.antt =====
-- internal/ads/decision_log.go: the bounded queue of decision logs. The channel is the list of its
-- entries, oldest first; `written` is what the goroutine has passed to the logger. A nil logger is
-- `none`.
pub mod Queue
use adserver.Common.Word.{inc64}
use adserver.Common.Int.{ℤ, ltb_ℤ, pos, pos_part}
use adserver.Common.Text.{Str}
use adserver.Common.{
  ℕ, true, false, some, none, [], ◌∷◌, ◌++◌, if◌then◌else◌, List, Option, Bool, ltb, length,
}

pub record DecisionLog : Type 0 where
  pub request_id : Str
  pub placement_id : Str
  pub pricing_model : Str
  pub eligible_candidates : ℕ
  pub winner_bid_id : Str
  pub winner_deal_id : Str
  pub winner_priority : ℤ
  pub effective_price_micros : ℤ
  pub clearing_price_micros : ℤ
  pub no_bid_reason : Str
  pub served_stale : Bool
  pub snapshot_age_ms : ℤ
  pub dynamic_bidder_id : Str

pub record DecisionLogger : Type 0 where
  pub capacity : ℕ
  pub entries : List DecisionLog
  pub written : List DecisionLog
  pub dropped : ℕ
  pub is_closed : Bool
  pub is_done : Bool

unfoldable pub new_decision_logger : Bool → ℤ → Option DecisionLogger
new_decision_logger false buffer = none
new_decision_logger true buffer = some (record {
  capacity = if ltb_ℤ buffer (pos 1) then 4096 else pos_part buffer;
  entries = [];
  written = [];
  dropped = 0;
  is_closed = false;
  is_done = false;
})

-- A send on a closed channel panics.
pub data Recorded : Type 0 where
  panics : Recorded
  returns : Option DecisionLogger → Bool → Recorded

unfoldable pub record_entry : Option DecisionLogger → DecisionLog → Recorded
record_entry none entry = returns none true
record_entry (some d) entry =
    if d.is_closed
    then panics
    else if ltb (length d.entries) d.capacity
    then returns (some (record d { entries = d.entries ++ entry ∷ [] })) true
    else returns (some (record d { dropped = inc64 d.dropped })) false

-- One turn of `run`: the oldest entry is written; on a closed and empty channel the goroutine ends.
unfoldable pub run_once : DecisionLogger → List DecisionLog → DecisionLogger
run_once d [] = if d.is_closed then record d { is_done = true } else d
run_once d (entry ∷ rest) = record d { entries = rest; written = d.written ++ entry ∷ [] }

unfoldable pub run_logger : DecisionLogger → DecisionLogger
unfolding run_once
run_logger d = run_once d d.entries

-- `Close` closes the channel once, and waits for the goroutine to end.
unfoldable pub close_entries : DecisionLogger → DecisionLogger
close_entries d = record d { is_closed = true }

unfoldable pub dropped_count : Option DecisionLogger → ℕ
dropped_count none = 0
dropped_count (some d) = d.dropped
