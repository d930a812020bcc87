-- ===== src/Examples/Stores.antt =====
-- Runs of the two scripts on one placement.
use mathlib.Core.List.{Mem}
use adserver.Store.Retry.{IsHash}
use adserver.Store.Latest.{apply_all-latest}
use adserver.Common.Text.{str_eq, bytes}
use adserver.Common.Assoc.{has_key, load, store, delete}
use adserver.Store.Register.{
  apply_all, view, IsSound, write_revision, apply, Write, write_id, put_all, upserts,
  apply_all-view, deletes, write_value,
}
use adserver.Store.{
  Hashes, delete_script, upsert_script, upsert_at, delete_at, tonumber, empty_hashes,
}
use adserver.Common.{refl, true, some, [], ◌∷◌, ◌≡◌, ◌^◌, ◌≤◌, All, List, arith}

abbrev writes : List Write
writes =
    upserts (bytes "a") 1 (bytes "one")
    ∷ upserts (bytes "b") 7 (bytes "other")
    ∷ upserts (bytes "a") 3 (bytes "three")
    ∷ deletes (bytes "a") 2
    ∷ deletes (bytes "b") 8
    ∷ []

abbrev written : Hashes
written = apply_all empty_hashes writes

written-versions : written.versions ≡ (bytes "a", 3) ∷ (bytes "b", 8) ∷ []
unfolding apply_all apply upsert_script upsert_at delete_script delete_at tonumber load store delete
    str_eq
written-versions = refl

written-active : written.active ≡ (bytes "a", bytes "three") ∷ []
unfolding apply_all apply upsert_script upsert_at delete_script delete_at tonumber load store delete
    str_eq
written-active = refl

load-written : load (bytes "a") written.versions ≡ some 3
unfolding apply_all apply upsert_script upsert_at delete_script delete_at tonumber load store delete
    str_eq
load-written = refl

writes-exact : All (λ w. write_revision w ≤ 2 ^ 53) writes
writes-exact = (omega arith, (omega arith, (omega arith, (omega arith, (omega arith, tt)))))

apply_all-latest_example :
    All (λ w. str_eq (write_id w) (bytes "a") ≡ true → write_revision w ≤ 3) writes
    × ((w : Write) × Mem w writes
        × (str_eq (write_id w) (bytes "a") ≡ true)
        × (write_revision w ≡ 3)
        × (write_value w ≡ load (bytes "a") written.active))
apply_all-latest_example = apply_all-latest writes (bytes "a") 3 writes-exact load-written

empty_hashes-IsSound : IsSound empty_hashes
empty_hashes-IsSound = record { hash = record { active_keys = tt; version_keys = tt }; exact = tt }

apply_all-view_example :
    view written (bytes "b") ≡ put_all (bytes "b") (view empty_hashes (bytes "b")) writes
apply_all-view_example =
    apply_all-view empty_hashes writes (bytes "b") empty_hashes-IsSound writes-exact

abbrev one_bid : Hashes
one_bid = record { active = (bytes "a", bytes "one") ∷ []; versions = (bytes "a", 5) ∷ [] }

one_bid-IsHash : IsHash one_bid
unfolding has_key str_eq
one_bid-IsHash = record { active_keys = (refl, tt); version_keys = (refl, tt) }
