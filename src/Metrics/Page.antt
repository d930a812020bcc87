-- ===== src/Metrics/Page.antt =====
-- internal/ads/metrics.go: the text of the metrics page. Byte 10 ends a line, and byte 34 is a quote.
use adserver.Common.Int.{pos, ℤ}
use adserver.Cache.{CacheStats}
use adserver.Dynamic.Engine.{BidderEngineStats}
use adserver.Metrics.{write_histogram, Metrics}
use adserver.Common.Text.{Str, bytes}
use adserver.Common.{[], ◌∷◌, ◌++◌, ℕ, List}
use adserver.Common.Decimal.{format_int}

-- `fmt.Fprintf(w, "name %d\n", n)`.
unfoldable pub line : Str → ℕ → Str
unfolding format_int
line name n = name ++ bytes " " ++ format_int (pos n) ++ 10 ∷ []

unfoldable pub bucket_lines : Str → List (ℤ × ℕ) → Str
unfolding line
bucket_lines name [] = []
bucket_lines name ((upper, n) ∷ rest) =
    line (name ++ bytes "_bucket{le=" ++ 34 ∷ format_int upper ++ 34 ∷ bytes "}") n
    ++ bucket_lines name rest

unfoldable pub histogram_page : Str → List ℕ → ℕ → Str
unfolding bucket_lines write_histogram
histogram_page name histogram total =
    let h = write_histogram histogram total in
    bucket_lines name h.buckets
    ++ line (name ++ bytes "_bucket{le=" ++ 34 ∷ bytes "+Inf" ++ 34 ∷ bytes "}") h.unbounded
    ++ line (name ++ bytes "_count") h.count

-- `Handler`.
unfoldable pub metrics_page : Metrics → Str
unfolding histogram_page
metrics_page m =
    line (bytes "adserver_auctions_total") m.auctions
    ++ line (bytes "adserver_fills_total") m.filled
    ++ line (bytes "adserver_no_bid_total") m.no_bid
    ++ line (bytes "adserver_bad_requests_total") m.bad_requests
    ++ line (bytes "adserver_bid_mutations_total") m.bid_mutations
    ++ line (bytes "adserver_bid_mutation_errors_total") m.bid_mutation_errors
    ++ line (bytes "adserver_readiness_checks_total") m.readiness_checks
    ++ line (bytes "adserver_readiness_failures_total") m.readiness_failures
    ++ line (bytes "adserver_decision_log_dropped_total") m.decision_log_dropped
    ++ line (bytes "adserver_served_stale_total") m.served_stale
    ++ line (bytes "adserver_stale_snapshot_no_bid_total") m.stale_no_bid
    ++ line (bytes "adserver_dynamic_bid_wins_total") m.dynamic_wins
    ++ histogram_page (bytes "adserver_auction_selection_latency_microseconds") m.selection_latency
        m.auctions
    ++ histogram_page (bytes "adserver_auction_handler_latency_microseconds") m.handler_latency
        m.auctions

unfoldable pub cache_page : CacheStats → Str
unfolding line
cache_page s =
    line (bytes "adserver_cache_refresh_total") s.counters.refreshes
    ++ line (bytes "adserver_cache_refresh_failures_total") s.counters.refresh_failures
    ++ line (bytes "adserver_cache_reconciliations_total") s.counters.reconciliations
    ++ line (bytes "adserver_cache_reconcile_failures_total") s.counters.reconcile_failures
    ++ line (bytes "adserver_cache_subscription_failures_total") s.counters.subscription_failures
    ++ line (bytes "adserver_cache_placements") s.placements
    ++ line (bytes "adserver_cache_refresh_inflight") s.inflight_refreshes

unfoldable pub bidder_page : BidderEngineStats → Str
unfolding line
bidder_page s =
    line (bytes "adserver_dynamic_bid_cache_hits_total") s.cache_hits
    ++ line (bytes "adserver_dynamic_bid_cache_full_total") s.cache_full
    ++ line (bytes "adserver_dynamic_bid_refreshes_total") s.refreshes
    ++ line (bytes "adserver_dynamic_bid_refresh_skipped_total") s.refresh_skipped
    ++ line (bytes "adserver_dynamic_bid_fanout_skipped_total") s.fanout_skipped
    ++ line (bytes "adserver_dynamic_bid_circuit_open_total") s.circuit_open
    ++ line (bytes "adserver_dynamic_bid_timeouts_total") s.timeouts
    ++ line (bytes "adserver_dynamic_bid_failures_total") s.failures
