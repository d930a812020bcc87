-- ===== src/Store.antt =====
-- internal/ads/store.go: the Redis registry of active bids. The two Lua scripts run atomically on
-- the hashes of a placement: the active payloads and the revisions, which outlive a delete as
-- tombstones. A payload is the text that the JSON encoder makes of a bid.
pub mod Retry
pub mod Client
pub mod Keys
pub mod Connect
pub mod Register
pub mod Latest
use adserver.Common.Assoc.{load, store, delete, has_key}
use adserver.Common.Text.{Str, str_eq}
use adserver.Common.{
  ℕ, if◌then◌else◌, Option, List, ◌^◌, suc, ◌≤◌, ltb, ◌+◌, leb, ◌≡◌, ◌-◌, some, Bool, ◌/◌, ◌==◌,
  arith, false, ◌%◌, not, none, ◌*◌, ◌||◌, ◌&&◌, refl, true, zero, [],
}

-- The hashes of one placement.
pub record Hashes : Type 0 where
  pub active : List (Str × Str)
  pub versions : List (Str × ℕ)

abbrev pub empty_hashes : Hashes
empty_hashes = record { active = []; versions = [] }

-- `tonumber` of a decimal numeral: Lua numbers are doubles, so a number of more than 53 bits is
-- rounded to the nearest multiple of a power of two, ties to the even multiple. `shift` is the number
-- of low bits that are rounded away; eleven are enough for 64 bits.
abbrev round_at : ℕ → ℕ → ℕ
round_at n shift =
    let unit = 2 ^ shift in
    let q = n / unit in
    let r = n % unit in
    if ltb unit (2 * r) || (unit == 2 * r && q % 2 == 1) then (q + 1) * unit else q * unit

abbrev double_from : ℕ → ℕ → ℕ → ℕ
double_from zero shift n = round_at n shift
double_from (suc fuel) shift n = elim (ltb n (2 ^ (53 + shift))) [
  | true ↦ round_at n shift
  | false ↦ double_from fuel (suc shift) n
]

unfoldable pub tonumber : ℕ → ℕ
tonumber n = if leb n (2 ^ 53) then n else double_from 11 0 n

-- What a script returns.
pub data Reply : Type 0 where
  refused applied unchanged : Reply

abbrev write_bid : Hashes → Str → ℕ → Str → Hashes × Reply
write_bid h id revision payload = (
  record { active = store id payload h.active; versions = store id revision h.versions },
  applied,
)

unfoldable pub same_payload : Option Str → Str → Bool
same_payload none payload = false
same_payload (some p) payload = str_eq p payload

-- `upsertBidScript` after its HGET of the current revision.
unfoldable pub upsert_at : Hashes → Option ℕ → Str → ℕ → Str → Hashes × Reply
upsert_at h none id revision payload = write_bid h id revision payload
upsert_at h (some current) id revision payload =
    if ltb (tonumber revision) (tonumber current)
    then (h, refused)
    else if tonumber revision == tonumber current
    then (if same_payload (load id h.active) payload then (h, unchanged) else (h, refused))
    else write_bid h id revision payload

unfoldable pub upsert_script : Hashes → Str → ℕ → Str → Hashes × Reply
unfolding upsert_at
upsert_script h id revision payload = upsert_at h (load id h.versions) id revision payload

abbrev erase_bid : Hashes → Str → ℕ → Hashes × Reply
erase_bid h id revision =
    (record { active = delete id h.active; versions = store id revision h.versions }, applied)

-- `deleteBidScript` after its HGET of the current revision.
unfoldable pub delete_at : Hashes → Option ℕ → Str → ℕ → Hashes × Reply
delete_at h none id revision = erase_bid h id revision
delete_at h (some current) id revision =
    if ltb (tonumber revision) (tonumber current)
    then (h, refused)
    else if tonumber revision == tonumber current
    then (if not (has_key id h.active) then (h, unchanged) else (h, refused))
    else erase_bid h id revision

unfoldable pub delete_script : Hashes → Str → ℕ → Hashes × Reply
unfolding delete_at
delete_script h id revision = delete_at h (load id h.versions) id revision

-- Numbers of 53 bits are exact.
pub tonumber_exact : (n : ℕ) → n ≤ 2 ^ 53 → tonumber n ≡ n
unfolding tonumber
tonumber_exact n h = ground arith

-- The two numerals after 2^53 read as one number, and so does the last int64.
tonumber_ties : (tonumber (2 ^ 53 + 1) ≡ 2 ^ 53) × (tonumber (2 ^ 53 + 3) ≡ 2 ^ 53 + 4)
unfolding tonumber
tonumber_ties = (refl, refl)

tonumber_top : tonumber (2 ^ 63 - 1) ≡ 2 ^ 63
unfolding tonumber
tonumber_top = refl
