-- ===== src/Examples/Lifecycles.antt =====
-- A bid from its upsert to the auction that it wins, and from its delete to one that another wins.
use adserver.SortBids.{sort_bids, bid_less}
use adserver.Store.{delete_script, delete_at, tonumber}
use adserver.Common.Assoc.{load, has_key, store, delete}
use mathlib.Core.List.Perm
use adserver.Cache.Snapshots.{fresh}
use adserver.Auctioneer.Published.{IsTooOld, Yields, upsert-Yields}
use adserver.Examples.Clients.{
  encode, decode, decode-encode, steady, lossy, no_registry, upserted-error, fetched-dear,
}
use adserver.Examples.Snapshots.{before_refresh}
use adserver.Examples.Sorting.{insertion_sort}
use adserver.Examples.{asked, dear, second, from_dsp, cheap}
use adserver.Auctioneer.{run, decide, conclude}
use adserver.Auctioneer.Withdrawn.{IsOther, delete_bid-IsOther}
use adserver.Store.Client.Reads.History.{History, ReadsIds, upserts, starts}
use adserver.Store.{upsert_script, upsert_at, same_payload}
use adserver.Store.Client.{upsert_checked, upsert_payload, upsert}
use mathlib.Core.Path.{subst}
use adserver.Store.Client.{
  delete_bid, Registry, hashes_of, StoreError, write, hashes_at, after_sadd, after_script,
  announced, retry_topology, or_again, attempt, sadd, publish, eval_script,
}
use adserver.Store.Client.Reads.{fetch, fetch_values, sorted_bids, read_bids, values, hgetall}
use adserver.Cache.{
  refresh, get, new_bid_cache, is_valid_cache_policy, default_cache_policy, sub_time, snapshot_of,
}
use adserver.Auction.{
  clearing_price, consider_dynamic, consider_bids, consider, compete, eligible, effective_price,
  matches,
}
use adserver.Types.Bid.{validate, validate_with, normalize, Bid}
use adserver.Common.Int.{pos, ◌-ℤ◌, ◌+ℤ◌, ◌*ℤ◌, quot_ℤ, rem_ℤ}
use adserver.Common.Word.{add64, to_int64, mul64, quot64, rem64}
use adserver.Common.Text.{is_empty, has_byte, contains, str_eq, bytes, Str, str_eq→eq}
use adserver.Common.{
  refl, true, some, [], ◌∷◌, ◌≡◌, ◌⊎◌, none, Option, sym, ap, inl, inr, Bool-cases, ◌∙◌,
}

dear-eligible : eligible (normalize dear) asked (pos 60) (effective_price (normalize dear)) ≡ true
unfolding eligible effective_price normalize matches add64 to_int64 ◌+ℤ◌ mul64 ◌*ℤ◌ quot64 quot_ℤ
    rem64 rem_ℤ
dear-eligible = refl

upsert-Yields_example :
    let c = (refresh insertion_sort before_refresh (bytes "top") (some (dear ∷ [])) (pos 40)).0 in
    IsTooOld c (pos 52) (fresh insertion_sort (dear ∷ []) (pos 40))
    ⊎ Yields (run second c (pos 52) (pos 60) asked (from_dsp ∷ [])).1 (normalize dear)
upsert-Yields_example =
    upsert-Yields insertion_sort encode decode (λ xs. xs) steady lossy steady lossy dear no_registry
      (dear ∷ []) before_refresh second (pos 40) (pos 52) (pos 60) asked (from_dsp ∷ [])
      (λ xs. Perm.refl xs) decode-encode upserted-error fetched-dear refl dear-eligible

-- Two bids are registered, and one is deleted.
abbrev encode_id : Bid → Option Str
encode_id b = some b.id

abbrev one : Registry
one = record {
  placements = bytes "top" ∷ [];
  hashes =
      (bytes "top", record { active = (bytes "a", bytes "a") ∷ []; versions = (bytes "a", 1) ∷ [] })
      ∷ [];
  published = bytes "top" ∷ [];
}

abbrev both : Registry
both = record {
  placements = bytes "top" ∷ [];
  hashes =
      (
        bytes "top",
        record {
          active = (bytes "a", bytes "a") ∷ (bytes "b", bytes "b") ∷ [];
          versions = (bytes "a", 1) ∷ (bytes "b", 1) ∷ [];
        },
      )
      ∷ [];
  published = bytes "top" ∷ bytes "top" ∷ [];
}

one-upsert : (upsert encode_id steady steady steady cheap no_registry).0 ≡ one
unfolding upsert upsert_checked upsert_payload write after_sadd after_script announced
    retry_topology or_again attempt sadd publish eval_script hashes_of hashes_at upsert_script
    upsert_at same_payload tonumber load store contains str_eq normalize validate validate_with
    is_empty has_byte
one-upsert = refl

both-upsert : (upsert encode_id steady lossy steady dear one).0 ≡ both
unfolding upsert upsert_checked upsert_payload write after_sadd after_script announced
    retry_topology or_again attempt sadd publish eval_script hashes_of hashes_at upsert_script
    upsert_at same_payload tonumber load store contains str_eq normalize validate validate_with
    is_empty has_byte
both-upsert = refl

both-History : History encode_id both
both-History = subst (History encode_id) both-upsert (
    upserts steady lossy steady dear
      (subst (History encode_id) one-upsert (upserts steady steady steady cheap starts)))

abbrev withdrawn : Registry × Option StoreError
withdrawn = delete_bid steady lossy steady (bytes "top") (bytes "b") 2 both

abbrev id_of : Option Bid → Str
id_of none = []
id_of (some b) = b.id

-- The decoder knows two payloads, each of which is the id of its bid.
decode-id : (payload : Str) (b : Bid) → decode payload ≡ some b → b.id ≡ payload
decode-id payload b d = elim (Bool-cases (str_eq payload (bytes "b"))) [
  | inl t ↦ sym (ap id_of (rw t at d)) ∙ sym (str_eq→eq payload (bytes "b") t)
  | inr t ↦ elim (Bool-cases (str_eq payload (bytes "a"))) [
    | inl k ↦ sym (ap id_of (rw (t, k) at d)) ∙ sym (str_eq→eq payload (bytes "a") k)
    | inr k ↦ let q = rw (t, k) at d in absurd (cc)
  ]
]

encode_id-ReadsIds : ReadsIds encode_id decode
encode_id-ReadsIds b b' payload e d =
    decode-id payload b' d ∙ sym (ap (λ o. elim o [ none ↦ [] | some p ↦ p ]) e)

withdrawn-error : withdrawn.1 ≡ none
unfolding delete_bid write after_sadd after_script announced retry_topology or_again attempt sadd
    publish eval_script hashes_of hashes_at delete_script delete_at tonumber load store delete
    has_key contains str_eq is_empty
withdrawn-error = refl

withdrawn-fetched :
    fetch insertion_sort decode (λ xs. xs) lossy (bytes "top") withdrawn.0 ≡ some (cheap ∷ [])
unfolding delete_bid write after_sadd after_script announced retry_topology or_again attempt sadd
    publish eval_script hashes_of hashes_at delete_script delete_at tonumber load store delete
    has_key contains str_eq is_empty fetch fetch_values sorted_bids read_bids values hgetall
    sort_bids bid_less normalize validate validate_with has_byte
withdrawn-fetched = refl

cheap-wins :
    (run second
      (refresh insertion_sort before_refresh (bytes "top") (some (cheap ∷ [])) (pos 40)).0
      (pos 52)
      (pos 60)
      asked
      []).1.bid
    ≡ some cheap
unfolding run refresh get new_bid_cache is_valid_cache_policy default_cache_policy sub_time
    snapshot_of decide conclude clearing_price consider_dynamic consider_bids consider compete
    eligible matches effective_price sort_bids bid_less load store has_key str_eq is_empty contains
    normalize to_int64 add64 mul64 quot64 rem64 ◌+ℤ◌ ◌-ℤ◌ ◌*ℤ◌ quot_ℤ rem_ℤ
cheap-wins = refl

delete_bid-IsOther_example : IsOther (bytes "b") cheap
delete_bid-IsOther_example =
    delete_bid-IsOther insertion_sort encode_id decode (λ xs. xs) steady lossy steady lossy
      (bytes "top") (bytes "b") 2 both (cheap ∷ []) before_refresh second (pos 40) (pos 52) (pos 60)
      asked [] cheap (λ xs. Perm.refl xs) encode_id-ReadsIds both-History withdrawn-error
      withdrawn-fetched refl tt cheap-wins
