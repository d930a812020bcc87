-- ===== src/Store/Client.antt =====
-- internal/ads/store.go: `retryTopology`, `Upsert` and `Delete` of the registry's client. Each attempt
-- of a Redis command may fail before the server runs it, or run while its answer is lost; these are
-- arguments, as is the JSON encoder. The placement stands for its keys, whose texts are in Store/Keys.
pub mod Outcome
pub mod Writes
pub mod Deletes
pub mod Kept
pub mod Reads
pub mod Subscribe
use adserver.Common.Assoc.{load, store}
use adserver.Store.{
  refused, applied, unchanged, upsert_script, Reply, Hashes, empty_hashes, delete_script,
}
use adserver.Common.Text.{Str, contains, is_empty}
use adserver.Types.Bid.{Bid, BidError, normalize, validate}
use adserver.Common.{
  some, none, ◌∷◌, ◌-◌, ◌^◌, ◌==◌, ◌||◌, if◌then◌else◌, Bool, Option, List, ℕ, ltb,
}

-- What one attempt of a command comes to.
pub data Attempt : Type 0 where
  fails lost answers : Attempt

-- The server's state: the set of placements, each one's hashes, and the messages, last one first.
pub record Registry : Type 0 where
  pub placements : List Str
  pub hashes : List (Str × Hashes)
  pub published : List Str

pub data StoreError : Type 0 where
  invalid : BidError → StoreError
  bad_arguments unencodable unavailable stale_revision : StoreError

-- Does a ReloadState and a second attempt follow the first (a cluster client), and what do both come to?
pub record Link : Type 0 where
  pub is_cluster : Bool
  pub first : Attempt
  pub again : Attempt

module _ {ℓ} {A : Type ℓ} where
  unfoldable pub attempt : Attempt → (Registry → Registry × A) → Registry → Registry × Option A
  attempt fails operation r = (r, none)
  attempt lost operation r = ((operation r).0, none)
  attempt answers operation r = ((operation r).0, some (operation r).1)

  unfoldable pub or_again :
      Link → (Registry → Registry × A) → Registry → Option A → Registry × Option A
  or_again link operation r (some a) = (r, some a)
  or_again link operation r none =
      if link.is_cluster then attempt link.again operation r else (r, none)

  unfoldable pub retry_topology : Link → (Registry → Registry × A) → Registry → Registry × Option A
  unfolding attempt or_again
  retry_topology link operation r =
      let (r', a) = attempt link.first operation r in or_again link operation r' a

unfoldable pub hashes_at : Option Hashes → Hashes
hashes_at none = empty_hashes
hashes_at (some h) = h

unfoldable pub hashes_of : Registry → Str → Hashes
unfolding hashes_at
hashes_of r placement = hashes_at (load placement r.hashes)

-- The commands.
unfoldable pub sadd : Str → Registry → Registry × Unit {0}
sadd placement r = (
  if contains r.placements placement then r else record r { placements = placement ∷ r.placements },
  tt,
)

unfoldable pub publish : Str → Registry → Registry × Unit {0}
publish placement r = (record r { published = placement ∷ r.published }, tt)

unfoldable pub eval_script : Str → (Hashes → Hashes × Reply) → Registry → Registry × Reply
eval_script placement script r =
    let (h, reply) = script (hashes_of r placement) in
    (record r { hashes = store placement h r.hashes }, reply)

-- The three commands of a write, each with its link, and the error at which they end.
unfoldable pub announced : Registry × Option (Unit {0}) → Registry × Option StoreError
announced (r, none) = (r, some unavailable)
announced (r, some u) = (r, none)

unfoldable pub after_script : Link → Str → Registry × Option Reply → Registry × Option StoreError
unfolding announced
after_script link placement (r, none) = (r, some unavailable)
after_script link placement (r, some refused) = (r, some stale_revision)
after_script link placement (r, some applied) =
    announced (retry_topology link (publish placement) r)
after_script link placement (r, some unchanged) =
    announced (retry_topology link (publish placement) r)

unfoldable pub after_sadd :
    Link
    → Link
    → Str
    → (Hashes → Hashes × Reply)
    → Registry × Option (Unit {0})
    → Registry × Option StoreError
unfolding after_script
after_sadd eval_link publish_link placement script (r, none) = (r, some unavailable)
after_sadd eval_link publish_link placement script (r, some u) =
    after_script publish_link placement (retry_topology eval_link (eval_script placement script) r)

unfoldable pub write :
    Link → Link → Link → Str → (Hashes → Hashes × Reply) → Registry → Registry × Option StoreError
unfolding after_sadd
write sadd_link eval_link publish_link placement script r =
    after_sadd eval_link publish_link placement script (retry_topology sadd_link (sadd placement) r)

-- `Upsert` behind the validation, with what `json.Marshal` returns.
unfoldable pub upsert_payload :
    Link → Link → Link → Bid → Option Str → Registry → Registry × Option StoreError
upsert_payload sadd_link eval_link publish_link b none r = (r, some unencodable)
upsert_payload sadd_link eval_link publish_link b (some payload) r =
    write sadd_link eval_link publish_link b.placement_id
      (λ h. upsert_script h b.id b.revision payload) r

unfoldable pub upsert_checked :
    (Bid → Option Str)
    → Link
    → Link
    → Link
    → Bid
    → Option BidError
    → Registry
    → Registry × Option StoreError
unfolding upsert_payload
upsert_checked marshal sadd_link eval_link publish_link b (some e) r = (r, some (invalid e))
upsert_checked marshal sadd_link eval_link publish_link b none r =
    upsert_payload sadd_link eval_link publish_link b (marshal b) r

unfoldable pub upsert :
    (Bid → Option Str) → Link → Link → Link → Bid → Registry → Registry × Option StoreError
unfolding upsert_checked
upsert marshal sadd_link eval_link publish_link bid r =
    let b = normalize bid in
    upsert_checked marshal sadd_link eval_link publish_link b (validate b) r

unfoldable pub delete_bid :
    Link → Link → Link → Str → Str → ℕ → Registry → Registry × Option StoreError
delete_bid sadd_link eval_link publish_link placement bid_id revision r =
    if is_empty placement || is_empty bid_id || revision == 0 || ltb (2 ^ 63 - 1) revision
    then (r, some bad_arguments)
    else write sadd_link eval_link publish_link placement (λ h. delete_script h bid_id revision) r
