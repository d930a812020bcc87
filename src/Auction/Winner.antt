-- ===== src/Auction/Winner.antt =====
-- Who wins: the accumulator's winner is an eligible offer that no eligible offer outranks, there
-- is one whenever some offer is eligible, and the candidates are the eligible offers.
use adserver.Auction.Offers.{outcome, offers, consider_dynamic-append}
use adserver.Common.Text.{Str}
use mathlib.Core.List.{Mem, mem-cons_of_mem, mem-cons_self}
use adserver.Common.{
  ◌≡◌, refl, inl, inr, Bool, true, false, Option, none, some, arith, Bool-cases, ◌⊎◌, List, All,
  ◌∷◌, ◌∙◌, [], ℕ, ◌+◌, if◌then◌else◌, suc,
}
use adserver.Common.Int.{ℤ}
use adserver.Types.Bid.{Bid, AuctionRequest}
use adserver.Auction.{
  DynamicBid, Accumulator, effective_price, eligible, ranks_ahead, counted, compete, consider,
  consider_dynamic, new_accumulator,
}
use adserver.Auction.Rank.{ranks_ahead_irrefl, not_ahead_trans}

-- The eligibility of an offer at the auction's request and time.
abbrev pub is_candidate : AuctionRequest → ℤ → DynamicBid → Bool
is_candidate request now o = eligible o.bid request now (effective_price o.bid)

-- The accumulator has a winner, and the offer does not outrank it.
abbrev pub NotAheadOf : DynamicBid → Option Bid → ℤ → Type 0
NotAheadOf o none price = ⊥
NotAheadOf o (some w) price = ranks_ahead o.bid (effective_price o.bid) w price ≡ false

abbrev pub Dominated : Accumulator → DynamicBid → Type 0
Dominated a o = NotAheadOf o a.winner a.winner_price

-- The fields that the loop leaves alone.
pub consider-request :
    (a : Accumulator) (o : DynamicBid)
    → let a' = consider a o.bid o.bidder_id in (a'.request ≡ a.request) × (a'.now_unix ≡ a.now_unix)
unfolding consider
consider-request a o = ground arith

compete-Dominated :
    (a : Accumulator) (w : Option Bid) (o x : DynamicBid)
    → w ≡ a.winner
    → NotAheadOf x w a.winner_price
    → Dominated (compete a w o.bid o.bidder_id (effective_price o.bid)) x
unfolding compete
compete-Dominated a none o x e h = elim h [ ]
compete-Dominated a (some w) o x e h = ground (
  arith,
  not_ahead_trans x.bid w o.bid (effective_price x.bid) a.winner_price (effective_price o.bid),
)

compete-Dominated_self :
    (a : Accumulator) (w : Option Bid) (o : DynamicBid)
    → w ≡ a.winner
    → Dominated (compete a w o.bid o.bidder_id (effective_price o.bid)) o
unfolding compete
compete-Dominated_self a none o e = ranks_ahead_irrefl o.bid (effective_price o.bid)
compete-Dominated_self a (some w) o e =
    ground (arith, ranks_ahead_irrefl o.bid (effective_price o.bid))

-- Whom the winner so far keeps off, the next winner keeps off.
consider-Dominated :
    (a : Accumulator) (o x : DynamicBid)
    → Dominated a x
    → Dominated (consider a o.bid o.bidder_id) x
unfolding consider
consider-Dominated a o x h = elim (Bool-cases (is_candidate a.request a.now_unix o)) [
  | inl e ↦ rw (e, consider) (compete-Dominated (counted a) a.winner o x refl h)
  | inr e ↦ rw (e, consider) h
]

-- An eligible offer does not outrank the winner after it is considered.
consider-Dominated_self :
    (a : Accumulator) (o : DynamicBid)
    → is_candidate a.request a.now_unix o ≡ true
    → Dominated (consider a o.bid o.bidder_id) o
unfolding consider
consider-Dominated_self a o h =
    rw (h, consider) (compete-Dominated_self (counted a) a.winner o refl)

-- The winner is the one of before, or the offer, which is then eligible.
abbrev Turn : Accumulator → Accumulator → DynamicBid → Type 0
Turn a a' o =
    ((a'.winner ≡ a.winner)
      × (a'.winner_price ≡ a.winner_price)
      × (a'.winner_bidder_id ≡ a.winner_bidder_id))
    ⊎ ((is_candidate a.request a.now_unix o ≡ true)
        × (a'.winner ≡ some o.bid)
        × (a'.winner_price ≡ effective_price o.bid)
        × (a'.winner_bidder_id ≡ o.bidder_id))

consider-Turn : (a : Accumulator) (o : DynamicBid) → Turn a (consider a o.bid o.bidder_id) o
unfolding consider
consider-Turn a o = ground arith

compete-candidates :
    (a : Accumulator) (w : Option Bid) (b : Bid) (id : Str) (p : ℤ)
    → (compete a w b id p).candidates ≡ a.candidates
unfolding compete
compete-candidates a none b id p = refl
compete-candidates a (some w) b id p = ground arith

consider-candidates :
    (a : Accumulator) (o : DynamicBid)
    → (consider a o.bid o.bidder_id).candidates
      ≡ (if is_candidate a.request a.now_unix o then suc a.candidates else a.candidates)
unfolding consider
consider-candidates a o =
    ground
      (arith, compete-candidates (counted a) a.winner o.bid o.bidder_id (effective_price o.bid))

module _ (request : AuctionRequest) (now : ℤ) where
  -- The accumulator belongs to this auction.
  abbrev pub IsFor : Accumulator → Type 0
  IsFor a = (a.request ≡ request) × (a.now_unix ≡ now)

  pub consider-IsFor :
      (a : Accumulator) (o : DynamicBid) → IsFor a → IsFor (consider a o.bid o.bidder_id)
  consider-IsFor a o h = ground (arith, consider-request a o)

  -- The winner is an eligible offer of the list, with its own price and bidder.
  abbrev pub WonBy : Accumulator → DynamicBid → Type 0
  WonBy a o =
      (a.winner ≡ some o.bid)
      × (a.winner_price ≡ effective_price o.bid)
      × (a.winner_bidder_id ≡ o.bidder_id)
      × (is_candidate request now o ≡ true)

  loop-WonBy :
      (a : Accumulator) (xs : List DynamicBid)
      → IsFor a
      → ((consider_dynamic a xs).winner ≡ a.winner)
          × ((consider_dynamic a xs).winner_price ≡ a.winner_price)
          × ((consider_dynamic a xs).winner_bidder_id ≡ a.winner_bidder_id)
        ⊎ ((o : DynamicBid) × Mem o xs × WonBy (consider_dynamic a xs) o)
  unfolding consider_dynamic
  loop-WonBy a [] h = inl (refl, refl, refl)
  loop-WonBy a (o ∷ xs) h =
      elim (loop-WonBy (consider a o.bid o.bidder_id) xs (consider-IsFor a o h)) [
        | inr (x, m, won) ↦ inr (x, mem-cons_of_mem o m, won)
        | inl (e, f, g) ↦ elim (consider-Turn a o) [
          | inl (e', f', g') ↦ inl (e ∙ e', f ∙ f', g ∙ g')
          | inr (c, e', f', g') ↦
              inr (o, mem-cons_self, (e ∙ e', f ∙ f', g ∙ g', rw (h.0, h.1) at c))
        ]
      ]

  loop-Dominated :
      (a : Accumulator) (xs : List DynamicBid) (x : DynamicBid)
      → Dominated a x
      → Dominated (consider_dynamic a xs) x
  unfolding consider_dynamic
  loop-Dominated a [] x d = d
  loop-Dominated a (o ∷ xs) x d =
      loop-Dominated (consider a o.bid o.bidder_id) xs x (consider-Dominated a o x d)

  loop-best :
      (a : Accumulator) (xs : List DynamicBid)
      → IsFor a
      → All (λ o. is_candidate request now o ≡ true → Dominated (consider_dynamic a xs) o) xs
  unfolding consider_dynamic
  loop-best a [] h = tt
  loop-best a (o ∷ xs) h = (
    λ c.
        loop-Dominated (consider a o.bid o.bidder_id) xs o
          (consider-Dominated_self a o (rw (h.0, h.1) c)),
    loop-best (consider a o.bid o.bidder_id) xs (consider-IsFor a o h),
  )

  -- The number of eligible offers.
  unfoldable pub count_candidates : List DynamicBid → ℕ
  count_candidates [] = 0
  count_candidates (o ∷ xs) =
      if is_candidate request now o then suc (count_candidates xs) else count_candidates xs

  loop-candidates :
      (a : Accumulator) (xs : List DynamicBid)
      → IsFor a
      → (consider_dynamic a xs).candidates ≡ a.candidates + count_candidates xs
  unfolding consider_dynamic count_candidates
  loop-candidates a [] h = omega arith
  loop-candidates a (o ∷ xs) h = ground (
    arith,
    consider-candidates a o,
    loop-candidates (consider a o.bid o.bidder_id) xs (consider-IsFor a o h),
  )

  module _ (bids : List Bid) (dynamic : List DynamicBid) where
    -- The outcome of the two loops: no eligible offer, of the snapshot or of a DSP, outranks the
    -- winner, and there is a winner if an offer is eligible; a winner is one of the offers, is
    -- eligible, and stands with its own effective price and bidder id; and `candidates` is the
    -- number of eligible offers.
    pub outcome-best :
        let a = outcome request now bids dynamic in
        All (λ o. is_candidate request now o ≡ true → Dominated a o) (offers bids dynamic)
        × ((a.winner ≡ none) ⊎ ((o : DynamicBid) × Mem o (offers bids dynamic) × WonBy a o))
        × (a.candidates ≡ count_candidates (offers bids dynamic))
    outcome-best = rw (← consider_dynamic-append (new_accumulator request now) bids dynamic) (
      loop-best start all (refl, refl),
      elim (loop-WonBy start all (refl, refl)) [ inl (e, _, _) ↦ inl e | inr won ↦ inr won ],
      omega (arith, loop-candidates start all (refl, refl)),
    )
      where
        start : Accumulator
        start = new_accumulator request now

        all : List DynamicBid
        all = offers bids dynamic
