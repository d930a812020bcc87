-- ===== src/Store/Retry.antt =====
-- Running a script again changes nothing: go-redis and `retryTopology` may run one twice.
use adserver.Common.Assoc.{
  DistinctKeys, delete-DistinctKeys, store-DistinctKeys, load, store, load-store, has_key, delete,
  has_key-load-none, load-delete,
}
use adserver.Common.Text.{Str, str_eq_refl}
use adserver.Store.{delete_script, Hashes, upsert_script, refused, same_payload}
use adserver.Common.{ℕ, true, false, ◌≡◌, some, none, ◌∙◌, ◌↔◌, if◌then◌else◌, arith, List, ap}

-- One hash has no key twice, which Redis sees to.
pub record IsHash (h : Hashes) : Type 0 where
  pub active_keys : DistinctKeys h.active
  pub version_keys : DistinctKeys h.versions

-- The scripts keep a placement's hashes well formed.
pub upsert_script-IsHash :
    (h : Hashes) (id : Str) (revision : ℕ) (payload : Str)
    → IsHash h
    → IsHash (upsert_script h id revision payload).0
unfolding upsert_script
upsert_script-IsHash h id revision payload v = ground (
  arith,
  store-DistinctKeys id payload h.active v.active_keys,
  store-DistinctKeys id revision h.versions v.version_keys,
)

pub delete_script-IsHash :
    (h : Hashes) (id : Str) (revision : ℕ) → IsHash h → IsHash (delete_script h id revision).0
unfolding delete_script
delete_script-IsHash h id revision v = ground (
  arith,
  delete-DistinctKeys id h.active v.active_keys,
  store-DistinctKeys id revision h.versions v.version_keys,
)

load-store_self {ℓ} :
    {V : Type ℓ} (k : Str) (v : V) (m : List (Str × V)) → load k (store k v m) ≡ some v
load-store_self k v m =
    load-store k k v m ∙ ap (λ t. if t then some v else load k m) (str_eq_refl k)

same_payload_self : (p : Str) → same_payload (some p) p ≡ true
unfolding same_payload
same_payload_self p = str_eq_refl p

-- An upsert script that runs a second time leaves the hashes as the first run left them, and its
-- answer is the refusal exactly if the first answer was.
pub upsert_script_again :
    (h : Hashes) (id : Str) (revision : ℕ) (payload : Str)
    → let first = upsert_script h id revision payload in
      let second = upsert_script first.0 id revision payload in
      (second.0 ≡ first.0) × ((second.1 ≡ refused) ↔ (first.1 ≡ refused))
unfolding upsert_script
upsert_script_again h id revision payload = ground (
  arith,
  load-store_self id revision h.versions,
  load-store_self id payload h.active,
  same_payload_self payload,
)

has_key-delete_self {ℓ} :
    {V : Type ℓ} (k : Str) (m : List (Str × V)) → DistinctKeys m → has_key k (delete k m) ≡ false
has_key-delete_self k m d =
    has_key-load-none k (delete k m)
      (load-delete k k m d ∙ ap (λ t. if t then none else load k m) (str_eq_refl k))

-- A delete script that runs a second time leaves the hashes, which held no key twice, as the first
-- run left them, and its answer is the refusal exactly if the first answer was.
pub delete_script_again :
    (h : Hashes) (id : Str) (revision : ℕ)
    → IsHash h
    → let first = delete_script h id revision in
      let second = delete_script first.0 id revision in
      (second.0 ≡ first.0) × ((second.1 ≡ refused) ↔ (first.1 ≡ refused))
unfolding delete_script
delete_script_again h id revision v =
    ground
      (arith, load-store_self id revision h.versions, has_key-delete_self id h.active v.active_keys)
