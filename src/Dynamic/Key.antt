-- ===== src/Dynamic/Key.antt =====
-- internal/ads/dynamic_bidding.go, `dynamicCacheKey`: the four fields joined by the unit separator.
use adserver.Common.Decimal.{format_int, format_int-injective, format_int-above}
use adserver.Common.Word.{IsInt64}
use adserver.Common.Text.{has_byte, Str, separator_cancel, last_cancel}
use adserver.Types.Bid.{AuctionRequest}
use mathlib.Core.List.{append_assoc}
use adserver.Common.{ℕ, false, ◌∷◌, ◌≡◌, ◌++◌, ◌∙◌, arith, sym}

-- The byte 0x1f.
abbrev pub unit_separator : ℕ
unit_separator = 31

unfoldable pub dynamic_cache_key : AuctionRequest → Str
dynamic_cache_key r =
    r.placement_id
    ++ (unit_separator
        ∷ (r.country
            ++ (unit_separator ∷ (r.device ++ (unit_separator ∷ format_int r.floor_micros)))))

abbrev before_floor : AuctionRequest → Str
before_floor r = r.placement_id ++ (unit_separator ∷ (r.country ++ (unit_separator ∷ r.device)))

regroup :
    (r : AuctionRequest)
    → dynamic_cache_key r ≡ before_floor r ++ (unit_separator ∷ format_int r.floor_micros)
unfolding dynamic_cache_key
regroup r = simp append_assoc

-- Requests with one key have one floor, whatever their texts hold.
pub dynamic_cache_key-floor :
    (r s : AuctionRequest)
    → IsInt64 r.floor_micros
    → IsInt64 s.floor_micros
    → dynamic_cache_key r ≡ dynamic_cache_key s
    → r.floor_micros ≡ s.floor_micros
unfolding dynamic_cache_key
dynamic_cache_key-floor r s h k e = format_int-injective r.floor_micros s.floor_micros h k (
    last_cancel unit_separator (before_floor r) (before_floor s) _ _
      (format_int-above r.floor_micros unit_separator (omega arith))
      (format_int-above s.floor_micros unit_separator (omega arith))
      (sym (regroup r) ∙ e ∙ regroup s))

-- No text of the request holds the separator.
abbrev pub IsSeparable : AuctionRequest → Type 0
IsSeparable r =
    (has_byte unit_separator r.placement_id ≡ false)
    × (has_byte unit_separator r.country ≡ false)
    × (has_byte unit_separator r.device ≡ false)

-- Requests with int64 floors and texts that do not hold the separator share a key only if they agree
-- in all four fields.
pub dynamic_cache_key-injective :
    (r s : AuctionRequest)
    → IsSeparable r
    → IsSeparable s
    → IsInt64 r.floor_micros
    → IsInt64 s.floor_micros
    → dynamic_cache_key r ≡ dynamic_cache_key s
    → (r.placement_id ≡ s.placement_id)
      × (r.country ≡ s.country)
      × (r.device ≡ s.device)
      × (r.floor_micros ≡ s.floor_micros)
unfolding dynamic_cache_key
dynamic_cache_key-injective r s p q h k e =
    let first = separator_cancel unit_separator r.placement_id s.placement_id _ _ p.0 q.0 e in
    let second = separator_cancel unit_separator r.country s.country _ _ p.1 q.1 first.1 in
    let third = separator_cancel unit_separator r.device s.device _ _ p.2 q.2 second.1 in
    (first.0, second.0, third.0, format_int-injective r.floor_micros s.floor_micros h k third.1)

-- A separator inside a text moves the border between two fields: the request for the placement `p`
-- and country `c`, with the separator between `d` and `e` in its device, shares its key with the one
-- for the longer placement, country `d` and device `e`.
pub dynamic_cache_key-collision :
    (r : AuctionRequest) (p c d e : Str)
    → dynamic_cache_key
        (record r { placement_id = p ++ (unit_separator ∷ c); country = d; device = e })
      ≡ dynamic_cache_key
          (record r { placement_id = p; country = c; device = d ++ (unit_separator ∷ e) })
unfolding dynamic_cache_key
dynamic_cache_key-collision r p c d e = simp append_assoc
