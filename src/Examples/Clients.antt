-- ===== src/Examples/Clients.antt =====
-- An upsert over a cluster whose script's first answer is lost, a delete and a fetch behind it.
use adserver.Store.Client.Deletes.{delete_bid_cases}
use adserver.Examples.Sorting.{insertion_sort}
use adserver.Store.Client.Reads.{fetch, fetch_values, sorted_bids, read_bids, values, hgetall}
use adserver.SortBids.{sort_bids, bid_less}
use mathlib.Core.Path.{subst}
use adserver.Store.Retry.{IsHash}
use adserver.Store.Retry.{IsHash}
use adserver.Store.Client.{bad_arguments, lost, answers}
use adserver.Common.Assoc.{load, store, has_key}
use adserver.Store.{upsert_script, upsert_at, same_payload, tonumber, delete_script}
use adserver.Store.Client.Writes.{Ends, upsert_cases}
use adserver.Examples.{dear, cheap}
use adserver.Common.Text.{Str, contains, str_eq, is_empty, has_byte, bytes}
use adserver.Types.Bid.{BidError, Bid, validate, normalize, validate_with}
use adserver.Store.Client.{
  Link, Registry, upsert, lost, upsert_checked, answers, StoreError, upsert_payload, write, invalid,
  after_sadd, after_script, unencodable, announced, retry_topology, or_again, attempt, sadd,
  publish, eval_script, hashes_of, hashes_at, delete_bid, bad_arguments,
}
use adserver.Common.{
  refl, true, some, none, [], ◌≡◌, ◌⊎◌, ◌++◌, Option, ◌∷◌, ◌-◌, ◌^◌, ◌==◌, ◌||◌, if◌then◌else◌,
  List, ltb, ap,
}

abbrev pub steady : Link
steady = record { is_cluster = true; first = answers; again = answers }

abbrev pub lossy : Link
lossy = record { is_cluster = true; first = lost; again = answers }

abbrev pub encode : Bid → Option Str
encode b = some (b.id ++ b.markup)

abbrev pub no_registry : Registry
no_registry = record { placements = []; hashes = []; published = [] }

abbrev pub upserted : Registry × Option StoreError
upserted = upsert encode steady lossy steady dear no_registry

pub upserted-error : upserted.1 ≡ none
unfolding upsert upsert_checked upsert_payload write after_sadd after_script announced
    retry_topology or_again attempt sadd publish eval_script hashes_of hashes_at upsert_script
    upsert_at same_payload tonumber load store contains str_eq normalize validate validate_with
    is_empty has_byte
upserted-error = refl

upsert_cases_example :
    ((e : BidError) × (validate (normalize dear) ≡ some e)
      × (upserted ≡ (no_registry, some (invalid e))))
    ⊎ ((validate (normalize dear) ≡ none)
        × (encode (normalize dear) ≡ none)
        × (upserted ≡ (no_registry, some unencodable)))
    ⊎ ((payload : Str) × (validate (normalize dear) ≡ none)
        × (encode (normalize dear) ≡ some payload)
        × Ends
            (normalize dear).placement_id
            (λ h. upsert_script h (normalize dear).id (normalize dear).revision payload)
            no_registry
            upserted)
upsert_cases_example = upsert_cases encode steady lossy steady dear no_registry

-- A delete of a bid that is there, with one lost answer, and a fetch behind the upsert.
abbrev deleted : Registry × Option StoreError
deleted = delete_bid steady lossy steady (bytes "top") (bytes "b") 2 upserted.0

upserted-IsHash : IsHash (hashes_of upserted.0 (bytes "top"))
unfolding upsert upsert_checked upsert_payload write after_sadd after_script announced
    retry_topology or_again attempt sadd publish eval_script hashes_of hashes_at upsert_script
    upsert_at same_payload tonumber load store contains str_eq normalize validate validate_with
    is_empty has_byte has_key
upserted-IsHash = record { active_keys = (refl, tt); version_keys = (refl, tt) }

delete_bid_cases_example :
    (((is_empty (bytes "top") || is_empty (bytes "b") || 2 == 0 || ltb (2 ^ 63 - 1) 2) ≡ true)
      × (deleted ≡ (upserted.0, some bad_arguments)))
    ⊎ Ends (bytes "top") (λ h. delete_script h (bytes "b") 2) upserted.0 deleted
delete_bid_cases_example =
    delete_bid_cases steady lossy steady (bytes "top") (bytes "b") 2 upserted.0 upserted-IsHash

-- The decoder of the payloads that `encode` writes of these two bids.
abbrev pub decode : Str → Option Bid
decode payload =
    if str_eq payload (bytes "b")
    then some dear
    else if str_eq payload (bytes "a")
    then some cheap
    else none

abbrev payload_of : Option Str → Str
payload_of none = []
payload_of (some p) = p

pub decode-encode : (p : Str) → encode (normalize dear) ≡ some p → decode p ≡ some (normalize dear)
unfolding normalize str_eq
decode-encode p h = subst (λ x. decode x ≡ some (normalize dear)) (ap payload_of h) refl

abbrev fetched : Option (List Bid)
fetched = fetch insertion_sort decode (λ xs. xs) lossy (bytes "top") upserted.0

pub fetched-dear : fetched ≡ some (dear ∷ [])
unfolding upsert upsert_checked upsert_payload write after_sadd after_script announced
    retry_topology or_again attempt sadd publish eval_script hashes_of hashes_at upsert_script
    upsert_at same_payload tonumber load store contains str_eq normalize validate validate_with
    is_empty has_byte fetch fetch_values sorted_bids read_bids values hgetall sort_bids bid_less
fetched-dear = refl
