-- ===== src/Lib.antt =====
-- The ad server of internal/ads: it keeps priced bids in Redis, serves them from local snapshots,
-- and answers each request by an auction over the snapshot of its placement and the DSP bids in a
-- second cache, which goroutines fill behind the auctions.
--
-- The parts and their files. A definition has the name of the Go function, method or type, in lower
-- case with underscores (`ranksAhead` is `ranks_ahead`); a method takes its receiver first and returns
-- the changed receiver.
--   Types      internal/ads/types.go: bids, requests and auction policies with their validation.
--   Config     internal/ads/types.go: the configuration, read from the environment and validated;
--              Config/Engine is what cmd/adserver/main.go makes of it for the bidder engine.
--   Auction    internal/ads/auction.go: eligibility, ranking, the accumulator, clearing prices. The
--              theorems on it stand in Auction/*, by subject.
--   Auctioneer internal/ads/auction.go, `run`: an auction over the cache, which it may ask to refresh.
--              Auctioneer/Published and Withdrawn follow a bid through the registry and the cache.
--   Cache      internal/ads/cache.go: the snapshots, the refreshes in flight and the counters;
--              Cache/Loops is `subscribeLoop` and `refreshLoop`, step by step, with the `Reconcile` of the
--              ticker placement by placement.
--   SortBids   internal/ads/store.go, `sortBids`: the order of a snapshot; `sort.Slice` is an interface.
--   Store      internal/ads/store.go: the two Lua scripts on the hashes of a placement; Store/Client is
--              `retryTopology`, `Upsert`, `Delete`, `Fetch` and `Placements`, with failing commands and
--              lost answers, and Client/Subscribe the goroutine of `Subscribe`. Store/Keys has the keys,
--              Store/Connect the options of the client.
--   Dynamic    internal/ads/dynamic_bidding.go: the DSP bid cache, the circuit breaker, the cache key
--              and the sanitising of what a DSP answers. Dynamic/Engine is `BidderEngine`: `trigger`
--              starts the goroutine of a refresh, Engine/Steps has its steps and those of the calls of
--              bidders, and Engine/Runs every interleaving of them, as a relation. Dynamic/HttpBidder is
--              internal/ads/http_bidder.go: the DSP behind an HTTP endpoint.
--   Server     internal/ads/server.go: the handlers of auctions, bid mutations, readiness and metrics;
--              Server/Handler has the routes, the headers and the replies.
--   Metrics    internal/ads/metrics.go: counters, latency histograms and their page.
--   DecisionLog internal/ads/decision_log.go: the bounded queue of decision logs.
--   Process    cmd/adserver/main.go: the start of the server with its exits, and its shutdown.
--   LoadTest   cmd/loadtest/main.go: the clients, the collector and the report of a load, as steps.
--   Common     shared types and lemmas: signed integers, 64-bit words with their wrap-around, byte
--              strings, association lists, decimal numerals.
--   Examples   tests and each theorem at a concrete input.
--
-- A request for an auction (`Server.auction`) is decoded and validated, looks up the DSP bids of its key
-- (`lookup`), may start a refresh of them (`trigger`), and runs the auction: that reads the cache once
-- (`Cache.get`), starts at most one refresh (`refresh_async`), and folds `consider` over the snapshot's
-- bids and then over the DSP bids. The handler then counts the decision, logs it and answers. A refresh
-- replaces a placement's snapshot by what the registry returns, normalised and sorted. A handler that
-- changes a bid calls the registry's client, and then asks the cache for a refresh.
--
-- Clock readings are arguments; each is an integer of nanoseconds or seconds. An int64 operation wraps at
-- 64 bits (`add64`, `mul64`), a uint64 counter at 2^64. A sync.Map is an association list, and the order
-- in which its Range visits the keys is an argument. A mutex makes an operation one step. A goroutine is
-- a value that says where it stands, a channel that bounds concurrency the number of its tokens that are
-- taken, and a goroutine that has to wait has no step. Loops are structural recursion over their lists.
-- Three functions take fuel: `format_int` prints at most 20 digits, which every int64 fits in,
-- `tonumber` rounds away at most 11 low bits, which is what a number of 64 bits exceeds a double's 53 by,
-- and `digits36` prints at most 13 digits in base 36, which every uint64 fits in.
--
-- What the code asks of its libraries is an argument: the JSON encoder and decoder, the environment and
-- the parsers of its values, the header fields, path and query values of a request, the answers of Redis
-- and of a DSP, the slots of a Redis cluster, `sort.Slice`, and the index that a percentile's product of
-- floats is truncated to.
--
-- Outside the development: printing, the text of errors and of the log, flags, signals, the routes of the
-- profiler, what a listener does when it fails, and the rate that a load test prints, which is not an
-- integer. They are calls of libraries around the parts above.
pub mod Auction
pub mod Auctioneer
pub mod Cache
pub mod Common
pub mod Config
pub mod DecisionLog
pub mod Dynamic
pub mod Examples
pub mod LoadTest
pub mod Metrics
pub mod Process
pub mod Server
pub mod SortBids
pub mod Store
pub mod Types
