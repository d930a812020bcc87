-- ===== src/Server/Page.antt =====
-- internal/ads/server.go, `metricsEndpoint`: the page of all counters.
use adserver.Common.Text.{Str}
use adserver.Server.{Server}
use adserver.Cache.{stats_of}
use adserver.Common.{some, none, [], ◌++◌}
use adserver.Metrics.Page.{metrics_page, cache_page, bidder_page}

unfoldable pub metrics_endpoint : Server → Str
unfolding metrics_page cache_page bidder_page stats_of
metrics_endpoint s =
    metrics_page s.metrics
    ++ cache_page (stats_of s.cache)
    ++ elim s.bidder_engine [ none ↦ [] | some e ↦ bidder_page e.stats ]
