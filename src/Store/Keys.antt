-- ===== src/Store/Keys.antt =====
-- internal/ads/store.go: the Redis keys that the registry's client uses.
pub mod Apart
pub mod Slots
use adserver.Common.Text.{Str, bytes}
use adserver.Common.{[], ◌∷◌, ◌++◌, List}

unfoldable pub join : Str → List Str → Str
join separator [] = []
join separator (x ∷ []) = x
join separator (x ∷ (y ∷ ys)) = x ++ (separator ++ join separator (y ∷ ys))

unfoldable pub key : Str → List Str → Str
unfolding join
key prefix parts = prefix ++ (bytes ":" ++ join (bytes ":") parts)

abbrev pub in_braces : Str → Str
in_braces placement = b'{' ∷ (placement ++ (b'}' ∷ []))

unfoldable pub active_key : Str → Str → Str
unfolding key
active_key prefix placement = key prefix (bytes "active" ∷ in_braces placement ∷ [])

unfoldable pub version_key : Str → Str → Str
unfolding key
version_key prefix placement = key prefix (bytes "active-version" ∷ in_braces placement ∷ [])

unfoldable pub placements_key : Str → Str
unfolding key
placements_key prefix = key prefix (bytes "placements" ∷ [])

unfoldable pub events_key : Str → Str
unfolding key
events_key prefix = key prefix (bytes "bid-events" ∷ [])
