-- ===== src/Server/Bids.antt =====
-- internal/ads/server.go: the handlers that change bids, their authorization, and the readiness check.
-- The registry's client and what its commands come to are those of `Store.Client`.
use adserver.Store.Client.{stale_revision, invalid, bad_arguments, unencodable, unavailable, upsert}
use adserver.Cache.{refresh_async}
use adserver.Common.Word.{inc64}
use adserver.Types.Bid.{Bid, normalize, validate}
use adserver.Metrics.{Metrics}
use adserver.Common.Text.{Str, is_empty, str_eq, bytes}
use adserver.Server.{Server, Body, decode_json, refuse}
use adserver.Store.Client.{Link, StoreError, delete_bid, Registry, invalid}
use adserver.Common.{
  true, false, some, none, [], ◌∷◌, ◌+◌, ◌-◌, ◌^◌, ◌==◌, ◌&&◌, ◌||◌, if◌then◌else◌, Option, ℕ, not,
  ltb, Bool, leb, ◌*◌, length, is_some,
}

pub data MutationReply : Type 0 where
  unauthorized invalid_bid stale_bid registry_unavailable revision_required deleted : MutationReply
  updated : Bid → MutationReply
  not_deleted : StoreError → MutationReply

-- `strings.TrimPrefix`.
unfoldable pub drop_prefix : Str → Str → Option Str
drop_prefix [] s = some s
drop_prefix (c ∷ cs) [] = none
drop_prefix (c ∷ cs) (x ∷ xs) = if c == x then drop_prefix cs xs else none

unfoldable pub trim_prefix : Str → Str → Str
unfolding drop_prefix
trim_prefix s prefix = elim (drop_prefix prefix s) [ none ↦ s | some rest ↦ rest ]

-- The comparison in constant time is that of the bytes.
unfoldable pub authorized : Server → Str → Bool
unfolding trim_prefix
authorized s header =
    if is_empty s.admin_token
    then true
    else let provided = trim_prefix header (bytes "Bearer ") in
      length provided == length s.admin_token && str_eq provided s.admin_token

unfoldable pub is_stale : StoreError → Bool
is_stale stale_revision = true
is_stale (invalid e) = false
is_stale bad_arguments = false
is_stale unencodable = false
is_stale unavailable = false

unfoldable pub count_mutation : Metrics → Option StoreError → Metrics
count_mutation m none = record m { bid_mutations = inc64 m.bid_mutations }
count_mutation m (some e) = record m {
  bid_mutations = inc64 m.bid_mutations;
  bid_mutation_errors = inc64 m.bid_mutation_errors;
}

-- The end of a mutation, from what the client returns.
unfoldable pub mutated : Server → Str → Registry → Option StoreError → Server
unfolding count_mutation
mutated s placement r none = record s {
  registry = r;
  metrics = count_mutation s.metrics none;
  cache = refresh_async s.cache placement;
}
mutated s placement r (some e) = record s {
  registry = r;
  metrics = count_mutation s.metrics (some e);
}

unfoldable pub upsert_reply : Bid → Option StoreError → MutationReply
unfolding is_stale
upsert_reply b none = updated b
upsert_reply b (some e) = if is_stale e then stale_bid else registry_unavailable

unfoldable pub delete_reply : Option StoreError → MutationReply
unfolding is_stale
delete_reply none = deleted
delete_reply (some e) = if is_stale e then stale_bid else not_deleted e

-- The links of the three commands of a write.
pub record Links : Type 0 where
  pub sadd_link : Link
  pub eval_link : Link
  pub publish_link : Link

unfoldable pub upsert_decoded :
    (Bid → Option Str) → Server → Links → Str → Bid → Server × MutationReply
unfolding mutated upsert_reply
upsert_decoded marshal s l id bid =
    let b = normalize bid in
    if not (str_eq b.id id) || is_some (validate b)
    then (refuse s, invalid_bid)
    else let (r, error) = upsert marshal l.sadd_link l.eval_link l.publish_link b s.registry in
      (mutated s b.placement_id r error, upsert_reply b error)

-- `upsertBid`: the header's authorization, the path's id and the body.
unfoldable pub upsert_bid :
    (Bid → Option Str) → Server → Links → Str → Str → Body Bid → Server × MutationReply
unfolding authorized upsert_decoded
upsert_bid marshal s l header id body =
    if not (authorized s header) then (s, unauthorized) else elim (decode_json body) [
      | none ↦ (refuse s, invalid_bid)
      | some bid ↦ upsert_decoded marshal s l id bid
    ]

-- `strconv.ParseUint(s, 10, 64)`: `none` for a text that is empty, has another byte than a digit, or
-- is out of range.
unfoldable pub parse_digits : ℕ → Str → Option ℕ
parse_digits acc [] = if ltb acc (2 ^ 64) then some acc else none
parse_digits acc (d ∷ ds) =
    if leb b'0' d && leb d b'9' then parse_digits (acc * 10 + (d - 48)) ds else none

unfoldable pub parse_uint : Str → Option ℕ
unfolding parse_digits
parse_uint [] = none
parse_uint (d ∷ ds) = parse_digits 0 (d ∷ ds)

-- `deleteBid`: the path's id and the query's placement and revision.
unfoldable pub delete_bid_at : Server → Links → Str → Str → Option ℕ → Server × MutationReply
unfolding mutated delete_reply
delete_bid_at s l id placement none = (s, revision_required)
delete_bid_at s l id placement (some revision) =
    let (r, error) =
      delete_bid l.sadd_link l.eval_link l.publish_link placement id revision s.registry in
    (mutated s placement r error, delete_reply error)

unfoldable pub delete_bid_request : Server → Links → Str → Str → Str → Str → Server × MutationReply
unfolding authorized delete_bid_at parse_uint
delete_bid_request s l header id placement revision =
    if not (authorized s header)
    then (s, unauthorized)
    else delete_bid_at s l id placement (parse_uint revision)

-- `ready`, with whether the `Ping` succeeds; the result says whether the reply is 200.
unfoldable pub ready : Server → Bool → Server × Bool
ready s pinged = (
  record s {
    metrics = record s.metrics {
      readiness_checks = inc64 s.metrics.readiness_checks;
      readiness_failures =
          if pinged then s.metrics.readiness_failures else inc64 s.metrics.readiness_failures;
    };
  },
  pinged,
)
