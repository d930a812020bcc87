-- ===== src/Store/Client/Deletes.antt =====
-- What the error of a delete says.
use adserver.Store.{delete_script}
use adserver.Store.Client.Writes.{Ends, write_cases}
use adserver.Store.Retry.{IsHash, delete_script_again}
use adserver.Common.Text.{Str, is_empty}
use adserver.Store.Client.{delete_bid, Link, Registry, hashes_of, bad_arguments}
use adserver.Common.{refl, true, inl, inr, some, ◌≡◌, ◌-◌, ◌^◌, ◌==◌, ◌||◌, ◌⊎◌, ℕ, ltb, Bool-cases}

-- A delete ends in one of four ways, whichever attempts fail and whichever answers are lost, on a
-- placement whose hashes hold no key twice. Without a placement or an id, or with a revision that is 0
-- or above the int64 range, it leaves the registry as it was. Otherwise a command has failed, or the
-- script refuses the delete on the hashes that the placement had and the error is a stale revision,
-- or there is no error, the script accepts the delete on those hashes and leaves them as they are now,
-- and the placement's message is published.
pub delete_bid_cases :
    (sadd_link eval_link publish_link : Link) (placement bid_id : Str) (revision : ℕ) (r : Registry)
    → IsHash (hashes_of r placement)
    → let result = delete_bid sadd_link eval_link publish_link placement bid_id revision r in
      (((is_empty placement || is_empty bid_id || revision == 0 || ltb (2 ^ 63 - 1) revision)
          ≡ true)
        × (result ≡ (r, some bad_arguments)))
      ⊎ Ends placement (λ h. delete_script h bid_id revision) r result
unfolding delete_bid
delete_bid_cases sadd_link eval_link publish_link placement bid_id revision r v =
    elim (Bool-cases
      (is_empty placement || is_empty bid_id || revision == 0 || ltb (2 ^ 63 - 1) revision)) [
        | inl t ↦ inl (t, rw t refl)
        | inr t ↦ inr (
            rw t (
              write_cases placement (λ h. delete_script h bid_id revision) sadd_link eval_link
                publish_link r (delete_script_again (hashes_of r placement) bid_id revision v)))
      ]
