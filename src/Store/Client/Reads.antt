-- ===== src/Store/Client/Reads.antt =====
-- internal/ads/store.go: `Fetch` and `Placements` of the registry's client. The JSON decoder, the order
-- in which a map is walked and `sort.Strings` are arguments.
pub mod Found
pub mod Gone
pub mod History
use adserver.Types.Bid.{Bid, validate, normalize}
use adserver.Common.Text.{Str, str_eq}
use adserver.Store.Client.{Registry, Link, hashes_of, retry_topology}
use adserver.SortBids.{sort_bids}
use adserver.Common.Sorting.{SliceSort}
use adserver.Common.{some, none, [], ◌∷◌, ◌&&◌, if◌then◌else◌, List, Option, not, is_some}

unfoldable pub hgetall : Str → Registry → Registry × List (Str × Str)
hgetall placement r = (r, (hashes_of r placement).active)

unfoldable pub smembers : Registry → Registry × List Str
smembers r = (r, r.placements)

-- The loop of `Fetch` over the payloads; `none` is its error.
unfoldable pub read_bids : (Str → Option Bid) → Str → List Str → Option (List Bid)
read_bids unmarshal placement [] = some []
read_bids unmarshal placement (payload ∷ rest) = elim (unmarshal payload) [
  | none ↦ none
  | some bid ↦ elim (read_bids unmarshal placement rest) [
    | none ↦ none
    | some bids ↦
        if not (is_some (validate (normalize bid))) && str_eq bid.placement_id placement
        then some (normalize bid ∷ bids)
        else some bids
  ]
]

unfoldable pub values : List (Str × Str) → List Str
values [] = []
values ((k, v) ∷ m) = v ∷ values m

unfoldable pub sorted_bids : SliceSort Bid → Option (List Bid) → Option (List Bid)
sorted_bids sorting none = none
sorted_bids sorting (some bids) = some (sort_bids sorting bids)

unfoldable pub fetch_values :
    SliceSort Bid
    → (Str → Option Bid)
    → (List Str → List Str)
    → Str
    → Option (List (Str × Str))
    → Option (List Bid)
unfolding sorted_bids read_bids values
fetch_values sorting unmarshal order placement none = none
fetch_values sorting unmarshal order placement (some entries) =
    sorted_bids sorting (read_bids unmarshal placement (order (values entries)))

unfoldable pub fetch :
    SliceSort Bid
    → (Str → Option Bid)
    → (List Str → List Str)
    → Link
    → Str
    → Registry
    → Option (List Bid)
unfolding fetch_values hgetall
fetch sorting unmarshal order link placement r =
    fetch_values sorting unmarshal order placement (retry_topology link (hgetall placement) r).1

unfoldable pub placements_of : (List Str → List Str) → Link → Registry → Option (List Str)
unfolding smembers
placements_of sort_strings link r = elim (retry_topology link smembers r).1 [
  | none ↦ none
  | some names ↦ some (sort_strings names)
]
