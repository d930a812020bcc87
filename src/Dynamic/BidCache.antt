-- ===== src/Dynamic/BidCache.antt =====
-- internal/ads/dynamic_bidding.go, `DynamicBidCache`. Clock readings are arguments, in nanoseconds since
-- the Unix epoch; the order in which `Range` visits the keys is one too.
pub mod Laws
pub mod Gets
use adserver.Common.Word.{to_int64, add64}
use adserver.Common.Assoc.{load, has_key, delete, store}
use adserver.Common.Text.{Str}
use adserver.Auction.{DynamicBid}
use adserver.Common.Int.{ℤ, pos, leb_ℤ, ltb_ℤ, ◌+ℤ◌, negsuc}
use adserver.Common.{ℕ, true, false, some, none, [], ◌∷◌, if◌then◌else◌, Option, List, Bool}

pub record DynamicBidList : Type 0 where
  pub bids : List DynamicBid
  pub expires_ns : ℤ

pub record DynamicBidCache : Type 0 where
  pub entries : List (Str × DynamicBidList)
  pub count : ℤ
  pub max_keys : ℤ

-- `DefaultBidderEngineConfig().MaxKeys`.
abbrev pub default_max_keys : ℤ
default_max_keys = pos 10000

unfoldable pub new_dynamic_bid_cache : ℤ → DynamicBidCache
new_dynamic_bid_cache max_keys = record {
  entries = [];
  count = pos 0;
  max_keys = if ltb_ℤ max_keys (pos 1) then default_max_keys else max_keys;
}

unfoldable pub fresh_bids : Option DynamicBidList → ℤ → Option (List DynamicBid)
fresh_bids none now = none
fresh_bids (some l) now = if leb_ℤ l.expires_ns (to_int64 now) then none else some l.bids

-- `Get`: `none` is a miss.
unfoldable pub get : DynamicBidCache → ℤ → Str → Option (List DynamicBid)
unfolding fresh_bids
get c now key = fresh_bids (load key c.entries) now

abbrev pub is_expired : Option DynamicBidList → ℤ → Bool
is_expired none now = false
is_expired (some l) now = leb_ℤ l.expires_ns now

-- Without one entry.
abbrev pub dropped : DynamicBidCache → Str → DynamicBidCache
dropped c k = record c { entries = delete k c.entries; count = add64 c.count (negsuc 0) }

-- The callback of the `Range` in `Put`, without the value that it returns.
unfoldable pub evict_key : DynamicBidCache → ℤ → Str → DynamicBidCache
evict_key c now k = if is_expired (load k c.entries) now then dropped c k else c

-- Is there no room for a new key?
abbrev pub is_full : DynamicBidCache → Bool
is_full c = leb_ℤ c.max_keys c.count

-- The `Range` over the keys in some order, which ends when there is room.
unfoldable pub evict : DynamicBidCache → ℤ → List Str → DynamicBidCache
evict c now [] = c
evict c now (k ∷ ks) =
    let c' = evict_key c now k in let rest = evict c' now ks in if is_full c' then rest else c'

abbrev pub add_entry : DynamicBidCache → Str → DynamicBidList → DynamicBidCache
add_entry c key l = record c { entries = store key l c.entries; count = add64 c.count (pos 1) }

-- `Put` behind its lock, with the entry made: a known key is replaced, a new one needs room.
unfoldable pub put_entry :
    DynamicBidCache → ℤ → List Str → Str → DynamicBidList → DynamicBidCache × Bool
put_entry c now order key l =
    if has_key key c.entries
    then (record c { entries = store key l c.entries }, true)
    else let c' = if is_full c then evict c (to_int64 now) order else c in
      if is_full c' then (c', false) else (add_entry c' key l, true)

unfoldable pub put :
    DynamicBidCache → ℤ → ℤ → List Str → Str → List DynamicBid → ℤ → DynamicBidCache × Bool
unfolding put_entry
put c made_at now order key bids ttl =
    if leb_ℤ ttl (pos 0)
    then (c, false)
    else put_entry c now order key (record { bids = bids; expires_ns = to_int64 (made_at +ℤ ttl) })
