-- ===== src/Dynamic/Settings.antt =====
-- internal/ads/dynamic_bidding.go: the settings of the bidder engine and of a bidder, their defaults
-- and limits. A Duration is its nanoseconds; an adapter is its id, `none` where it is nil.
use adserver.Dynamic.BidCache.{default_max_keys}
use adserver.Common.Text.{Str, is_empty}
use adserver.Common.Int.{ltb_ℤ, ℤ, pos, leb_ℤ}
use adserver.Common.{
  true, false, some, none, [], ◌∷◌, ◌==◌, ◌&&◌, ◌||◌, if◌then◌else◌, Option, ℕ, Bool, leb, ltb,
  length,
}

pub record BidderEngineConfig : Type 0 where
  pub max_fanout : ℤ
  pub max_concurrent_refreshes : ℤ
  pub cache_ttl : ℤ
  pub failure_ttl : ℤ
  pub max_keys : ℤ

pub record BidderConfig : Type 0 where
  pub adapter : Option Str
  pub timeout : ℤ
  pub max_concurrent : ℤ
  pub failure_threshold : ℤ
  pub circuit_open_for : ℤ

-- The errors of the engine's constructor, one for each message.
pub data EngineError : Type 0 where
  no_context bad_fanout bad_cache bad_adapter duplicate_bidder bad_bidder : EngineError

abbrev has_bad_fanout : BidderEngineConfig → Bool
has_bad_fanout c =
    ltb_ℤ c.max_fanout (pos 1)
    || ltb_ℤ (pos 64) c.max_fanout
    || ltb_ℤ c.max_concurrent_refreshes (pos 1)
    || ltb_ℤ (pos 4096) c.max_concurrent_refreshes

abbrev has_bad_cache : BidderEngineConfig → Bool
has_bad_cache c =
    ltb_ℤ c.max_keys (pos 1)
    || ltb_ℤ (pos 1000000) c.max_keys
    || leb_ℤ c.cache_ttl (pos 0)
    || ltb_ℤ (pos 600000000000) c.cache_ttl
    || leb_ℤ c.failure_ttl (pos 0)
    || ltb_ℤ (pos 60000000000) c.failure_ttl

-- `Validate` of the engine's settings; `none` is the nil error.
unfoldable pub validate_engine : BidderEngineConfig → Option EngineError
validate_engine c =
    if has_bad_fanout c then some bad_fanout else if has_bad_cache c then some bad_cache else none

abbrev pub default_bidder_engine_config : BidderEngineConfig
default_bidder_engine_config = record {
  max_fanout = pos 3;
  max_concurrent_refreshes = pos 128;
  cache_ttl = pos 2000000000;
  failure_ttl = pos 250000000;
  max_keys = default_max_keys;
}

-- The settings with the defaults for what is not positive.
unfoldable pub fill_engine : BidderEngineConfig → BidderEngineConfig
fill_engine c = record {
  max_fanout =
      if ltb_ℤ c.max_fanout (pos 1) then default_bidder_engine_config.max_fanout else c.max_fanout;
  max_concurrent_refreshes =
      if ltb_ℤ c.max_concurrent_refreshes (pos 1)
      then default_bidder_engine_config.max_concurrent_refreshes
      else c.max_concurrent_refreshes;
  cache_ttl =
      if leb_ℤ c.cache_ttl (pos 0) then default_bidder_engine_config.cache_ttl else c.cache_ttl;
  failure_ttl =
      if leb_ℤ c.failure_ttl (pos 0)
      then default_bidder_engine_config.failure_ttl
      else c.failure_ttl;
  max_keys = if ltb_ℤ c.max_keys (pos 1) then default_bidder_engine_config.max_keys else c.max_keys;
}

-- One character of an id. A byte of a rune that is not ASCII is refused, as is the rune.
abbrev is_id_byte : ℕ → Bool
is_id_byte c =
    (leb b'a' c && leb c b'z')
    || (leb b'A' c && leb c b'Z')
    || (leb b'0' c && leb c b'9')
    || c == b'-'
    || c == b'_'
    || c == b'.'

unfoldable pub are_id_bytes : Str → Bool
are_id_bytes [] = true
are_id_bytes (c ∷ cs) = is_id_byte c && are_id_bytes cs

unfoldable pub valid_bidder_id : Str → Bool
unfolding are_id_bytes
valid_bidder_id id = if is_empty id || ltb 64 (length id) then false else are_id_bytes id

-- A bidder's settings with the defaults of the constructor's loop.
unfoldable pub fill_bidder : BidderConfig → BidderConfig
fill_bidder c = record c {
  timeout = if leb_ℤ c.timeout (pos 0) then pos 60000000 else c.timeout;
  max_concurrent = if ltb_ℤ c.max_concurrent (pos 1) then pos 32 else c.max_concurrent;
}

unfoldable pub is_over_limit : BidderConfig → Bool
is_over_limit c =
    ltb_ℤ (pos 10000000000) c.timeout
    || ltb_ℤ (pos 1024) c.max_concurrent
    || ltb_ℤ (pos 100) c.failure_threshold
    || ltb_ℤ (pos 3600000000000) c.circuit_open_for
