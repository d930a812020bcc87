-- ===== src/Store/Register.antt =====
-- What the scripts promise of one bid id: a register that keeps the value of the highest revision,
-- where the value of a deleted bid is absent and its revision stays.
use adserver.Common.Text.{Str, str_eq, str_eq→eq}
use adserver.Store.{Hashes, upsert_script, delete_script, tonumber_exact}
use adserver.Common.Assoc.{load, store, load-store, load-delete}
use adserver.Common.{
  ℕ, some, none, [], ◌∷◌, ◌≡◌, ◌^◌, ◌≤◌, if◌then◌else◌, Option, All, ltb, List, arith, refl, ◌∙◌,
  ap,
}
use adserver.Store.Retry.{IsHash, upsert_script-IsHash, delete_script-IsHash}

-- The last revision of a bid and its payload, `none` where it is deleted.
abbrev pub Register : Type 0
Register = Option (ℕ × Option Str)

-- The contract: a higher revision wins, any other write changes nothing.
unfoldable pub put : Register → ℕ → Option Str → Register
put none revision value = some (revision, value)
put (some (current, old)) revision value =
    if ltb current revision then some (revision, value) else some (current, old)

unfoldable pub register_at : Option ℕ → Option Str → Register
register_at none value = none
register_at (some revision) value = some (revision, value)

-- The register of an id in the hashes.
unfoldable pub view : Hashes → Str → Register
unfolding register_at
view h id = register_at (load id h.versions) (load id h.active)

-- The revisions of up to 53 bits, which Lua reads exactly.
abbrev pub AreExact : Hashes → Type 0
AreExact h = All (λ e. e.1 ≤ 2 ^ 53) h.versions

load-exact :
    (id : Str) (m : List (Str × ℕ)) (c : ℕ)
    → All (λ e. e.1 ≤ 2 ^ 53) m
    → load id m ≡ some c
    → c ≤ 2 ^ 53
unfolding load
load-exact id [] c h e = cc
load-exact id ((j, v) ∷ m) c h e = ground (arith, load-exact id m c h.1)

store-exact :
    (id : Str) (v : ℕ) (m : List (Str × ℕ))
    → v ≤ 2 ^ 53
    → All (λ e. e.1 ≤ 2 ^ 53) m
    → All (λ e. e.1 ≤ 2 ^ 53) (store id v m)
unfolding store
store-exact id v [] r h = (r, tt)
store-exact id v ((j, w) ∷ m) r h = ground (arith, store-exact id v m r h.1)

-- The hashes after a script, by cases on the revision that it reads.
upsert-view :
    (h : Hashes) (id j : Str) (revision : ℕ) (payload : Str) (o : Option ℕ)
    → AreExact h
    → revision ≤ 2 ^ 53
    → load id h.versions ≡ o
    → view (upsert_script h id revision payload).0 j
      ≡ (if str_eq id j then put (view h id) revision (some payload) else view h j)
unfolding upsert_script view put
upsert-view h id j revision payload none x r e =
    ground (arith, load-store id j revision h.versions, load-store id j payload h.active)
upsert-view h id j revision payload (some c) x r e = ground (
  arith,
  load-store id j revision h.versions,
  load-store id j payload h.active,
  str_eq→eq id j,
  tonumber_exact revision r,
  tonumber_exact c (load-exact id h.versions c x e),
)

delete-view :
    (h : Hashes) (id j : Str) (revision : ℕ) (o : Option ℕ)
    → IsHash h
    → AreExact h
    → revision ≤ 2 ^ 53
    → load id h.versions ≡ o
    → view (delete_script h id revision).0 j
      ≡ (if str_eq id j then put (view h id) revision none else view h j)
unfolding delete_script view put
delete-view h id j revision none v x r e =
    ground (arith, load-store id j revision h.versions, load-delete id j h.active v.active_keys)
delete-view h id j revision (some c) v x r e = ground (
  arith,
  load-store id j revision h.versions,
  load-delete id j h.active v.active_keys,
  str_eq→eq id j,
  tonumber_exact revision r,
  tonumber_exact c (load-exact id h.versions c x e),
)

-- A call of a script on the hashes of a placement.
pub data Write : Type 0 where
  upserts : Str → ℕ → Str → Write
  deletes : Str → ℕ → Write

abbrev pub write_id : Write → Str
write_id (upserts id revision payload) = id
write_id (deletes id revision) = id

abbrev pub write_revision : Write → ℕ
write_revision (upserts id revision payload) = revision
write_revision (deletes id revision) = revision

abbrev pub write_value : Write → Option Str
write_value (upserts id revision payload) = some payload
write_value (deletes id revision) = none

unfoldable pub apply : Hashes → Write → Hashes
apply h (upserts id revision payload) = (upsert_script h id revision payload).0
apply h (deletes id revision) = (delete_script h id revision).0

unfoldable pub apply_all : Hashes → List Write → Hashes
unfolding apply
apply_all h [] = h
apply_all h (w ∷ ws) = apply_all (apply h w) ws

-- The register of an id after the writes: each write of that id in turn, and no other.
unfoldable pub put_all : Str → Register → List Write → Register
put_all id r [] = r
put_all id r (w ∷ ws) =
    put_all id (if str_eq (write_id w) id then put r (write_revision w) (write_value w) else r) ws

pub record IsSound (h : Hashes) : Type 0 where
  pub hash : IsHash h
  pub exact : AreExact h

upsert-exact :
    (h : Hashes) (id : Str) (revision : ℕ) (payload : Str)
    → AreExact h
    → revision ≤ 2 ^ 53
    → AreExact (upsert_script h id revision payload).0
unfolding upsert_script
upsert-exact h id revision payload x r = ground (arith, store-exact id revision h.versions r x)

delete-exact :
    (h : Hashes) (id : Str) (revision : ℕ)
    → AreExact h
    → revision ≤ 2 ^ 53
    → AreExact (delete_script h id revision).0
unfolding delete_script
delete-exact h id revision x r = ground (arith, store-exact id revision h.versions r x)

apply-IsSound :
    (h : Hashes) (w : Write) → IsSound h → write_revision w ≤ 2 ^ 53 → IsSound (apply h w)
unfolding apply
apply-IsSound h (upserts id revision payload) s r = record {
  hash = upsert_script-IsHash h id revision payload s.hash;
  exact = upsert-exact h id revision payload s.exact r;
}
apply-IsSound h (deletes id revision) s r = record {
  hash = delete_script-IsHash h id revision s.hash;
  exact = delete-exact h id revision s.exact r;
}

apply-view :
    (h : Hashes) (w : Write) (j : Str)
    → IsSound h
    → write_revision w ≤ 2 ^ 53
    → view (apply h w) j ≡ (
        if str_eq (write_id w) j
        then put (view h j) (write_revision w) (write_value w)
        else view h j)
unfolding apply
apply-view h (upserts id revision payload) j s r =
    ground (
      arith,
      str_eq→eq id j,
      upsert-view h id j revision payload (load id h.versions) s.exact r refl,
    )
apply-view h (deletes id revision) j s r =
    ground (
      arith,
      str_eq→eq id j,
      delete-view h id j revision (load id h.versions) s.hash s.exact r refl,
    )

-- The scripts implement the register: from hashes that hold no key twice and only revisions of up to
-- 53 bits, after any sequence of upserts and deletes with such revisions, the hashes show for every
-- id the register after the writes of that id in their order.
pub apply_all-view :
    (h : Hashes) (ws : List Write) (j : Str)
    → IsSound h
    → All (λ w. write_revision w ≤ 2 ^ 53) ws
    → view (apply_all h ws) j ≡ put_all j (view h j) ws
unfolding apply_all put_all
apply_all-view h [] j s r = refl
apply_all-view h (w ∷ ws) j s r =
    apply_all-view (apply h w) ws j (apply-IsSound h w s r.0) r.1
    ∙ ap (λ t. put_all j t ws) (apply-view h w j s r.0)
