-- ===== src/Examples/Dsps.antt =====
-- The caches, the circuit, the key and the sanitising of the DSP bids.
use adserver.Types.Bid.{validate_dynamic, validate_with}
use adserver.Dynamic.BidCache.Laws.{IsValid, put-IsValid, new_dynamic_bid_cache-IsValid}
use adserver.Examples.{from_dsp, asked, cheap, dear}
use adserver.Dynamic.BidCache.Gets.{put-get}
use adserver.Dynamic.Sanitize.Laws.{IsOpen, sanitize_dynamic_bids-Opened, opened, kept}
use adserver.Dynamic.Key.{
  IsSeparable, dynamic_cache_key-floor, dynamic_cache_key-injective, dynamic_cache_key,
  unit_separator, dynamic_cache_key-collision,
}
use adserver.Common.Int.{◌+ℤ◌, pos, ◌≤ℤ◌}
use adserver.Dynamic.BidCache.{
  DynamicBidCache, new_dynamic_bid_cache, put, get, put_entry, evict, evict_key,
}
use adserver.Dynamic.Sanitize.{DspRequest, sanitize_dynamic_bids}
use adserver.Common.Text.{str_eq, has_byte, bytes, is_empty}
use adserver.Common.Assoc.{has_key, load}
use adserver.Common.Word.{to_int64}
use adserver.Common.{refl, true, false, some, [], ◌∷◌, ◌≡◌, All, arith, ◌++◌, map}

abbrev empty_cache : DynamicBidCache
empty_cache = new_dynamic_bid_cache (pos 2)

empty_cache-IsValid : IsValid empty_cache
empty_cache-IsValid = new_dynamic_bid_cache-IsValid (pos 2) (omega arith, omega arith)

abbrev one_key : DynamicBidCache
one_key = (put empty_cache (pos 1000) (pos 1000) [] (bytes "k") (from_dsp ∷ []) (pos 500)).0

put-IsValid_example : IsValid one_key
put-IsValid_example =
    put-IsValid empty_cache (pos 1000) (pos 1000) [] (bytes "k") (from_dsp ∷ []) (pos 500)
      empty_cache-IsValid

put_one : (put empty_cache (pos 1000) (pos 1000) [] (bytes "k") (from_dsp ∷ []) (pos 500)).1 ≡ true
unfolding put put_entry new_dynamic_bid_cache has_key
put_one = refl

put-get_example : get one_key (pos 1400) (bytes "k") ≡ some (from_dsp ∷ [])
unfolding to_int64 ◌+ℤ◌
put-get_example =
    put-get empty_cache (pos 1000) (pos 1000) (pos 1400) [] (bytes "k") (from_dsp ∷ []) (pos 500)
      put_one

-- A full cache: one entry that has expired at 200 and one that has not.
abbrev full_cache : DynamicBidCache
full_cache = record {
  entries =
      (bytes "old", record { bids = []; expires_ns = pos 100 })
      ∷ (bytes "live", record { bids = from_dsp ∷ []; expires_ns = pos 900 })
      ∷ [];
  count = pos 2;
  max_keys = pos 2;
}

full_cache-IsValid : IsValid full_cache
unfolding has_key str_eq
full_cache-IsValid = record {
  limit = 2;
  limited = refl;
  in_range = omega arith;
  counted = refl;
  bounded = omega arith;
  distinct = (refl, (refl, tt));
}

later : to_int64 (pos 200) ≤ℤ to_int64 (pos 300)
unfolding to_int64
later = omega arith

differ : str_eq (bytes "new") (bytes "live") ≡ false
unfolding str_eq
differ = refl

put_no_room :
    (put full_cache
      (pos 10)
      (pos 20)
      (bytes "live" ∷ bytes "old" ∷ [])
      (bytes "new")
      []
      (pos 100)).1
    ≡ false
unfolding put put_entry evict evict_key to_int64 has_key load str_eq
put_no_room = refl

asked-IsSeparable : IsSeparable asked
unfolding has_byte
asked-IsSeparable = (refl, refl, refl)

dynamic_cache_key-floor_example : asked.floor_micros ≡ asked.floor_micros
unfolding dynamic_cache_key
dynamic_cache_key-floor_example =
    dynamic_cache_key-floor asked (record asked { user_id = bytes "u" }) (omega arith, omega arith)
      (omega arith, omega arith) refl

dynamic_cache_key-injective_example :
    (asked.placement_id ≡ asked.placement_id)
    × (asked.country ≡ asked.country)
    × (asked.device ≡ asked.device)
    × (asked.floor_micros ≡ asked.floor_micros)
unfolding dynamic_cache_key
dynamic_cache_key-injective_example =
    dynamic_cache_key-injective asked (record asked { user_id = bytes "u" }) asked-IsSeparable
      asked-IsSeparable (omega arith, omega arith) (omega arith, omega arith) refl

abbrev request_sent : DspRequest
request_sent = record {
  placement_id = bytes "top";
  country = [];
  device = [];
  floor_micros = pos 0;
}

sanitize_dynamic_bids-Opened_example :
    (sanitize_dynamic_bids (bytes "dsp") request_sent (cheap ∷ dear ∷ [])
      ≡ map
          (λ b. record { bid = opened (bytes "dsp") b; bidder_id = bytes "dsp" })
          (kept (bytes "dsp") request_sent (cheap ∷ dear ∷ [])))
    × All
        (IsOpen (bytes "dsp") request_sent)
        (sanitize_dynamic_bids (bytes "dsp") request_sent (cheap ∷ dear ∷ []))
sanitize_dynamic_bids-Opened_example =
    sanitize_dynamic_bids-Opened (bytes "dsp") request_sent (cheap ∷ dear ∷ [])

-- Both are kept.
kept-both : kept (bytes "dsp") request_sent (cheap ∷ dear ∷ []) ≡ cheap ∷ dear ∷ []
unfolding str_eq validate_dynamic validate_with is_empty has_byte
kept-both = refl

-- The placement "top" with country "x", and the longer placement that holds both.
dynamic_cache_key-collision_example :
    dynamic_cache_key (record asked {
      placement_id = bytes "top" ++ (unit_separator ∷ bytes "x");
      country = bytes "DE";
      device = bytes "mobile";
    })
    ≡ dynamic_cache_key (record asked {
      placement_id = bytes "top";
      country = bytes "x";
      device = bytes "DE" ++ (unit_separator ∷ bytes "mobile");
    })
dynamic_cache_key-collision_example =
    dynamic_cache_key-collision asked (bytes "top") (bytes "x") (bytes "DE") (bytes "mobile")
