-- ===== src/Auction/RunnerUp.antt =====
-- The runner-up price: the best price, at the winner's priority, among the eligible offers other
-- than the winning one, or 0 if there is none.
use mathlib.Core.Path.{subst, subst₂}
use mathlib.Core.List.{Mem, mem-cons_of_mem, mem-cons_self}
use adserver.Common.{
  ◌≡◌, refl, sym, ◌∙◌, ap, ◌⊎◌, inl, inr, Bool, true, false, ◌&&◌, List, ◌∷◌, some, arith,
  if◌then◌else◌, Bool-cases, All, ◌↔◌, All-mono,
}
use adserver.Common.Int.{ℤ, pos, ◌≤ℤ◌, ltb_ℤ, eqb_ℤ, eqb_ℤ_iff, pos_part, neg_part}
use adserver.Types.Bid.{Bid, AuctionRequest}
use adserver.Auction.{DynamicBid, Accumulator, effective_price, ranks_ahead, consider}
use adserver.Auction.Rank.{
  not_ahead_bounds, ahead_bounds, ranks_ahead_asymm, not_ahead_trans, ranks_ahead_irrefl,
}
use adserver.Auction.Winner.{is_candidate, Dominated, IsFor, WonBy}

module _ (request : AuctionRequest) (now : ℤ) where
  -- An eligible offer of the priority.
  abbrev pub is_rival : ℤ → DynamicBid → Bool
  is_rival priority o = is_candidate request now o && eqb_ℤ o.bid.priority priority

  -- Among `others`, the price bounds the rivals of the priority, and is one of theirs or 0.
  abbrev pub IsRunnerUp : ℤ → ℤ → List DynamicBid → Type 0
  IsRunnerUp priority price others =
      All (λ o. is_rival priority o ≡ true → effective_price o.bid ≤ℤ price) others
      × ((price ≡ pos 0)
          ⊎ ((o : DynamicBid) × Mem o others
              × (is_rival priority o ≡ true)
              × (price ≡ effective_price o.bid)))

  -- The state of an auction led by the offer `o` against the others.
  pub record Lead (a : Accumulator) (o : DynamicBid) (others : List DynamicBid) : Type 0 where
    pub won : WonBy request now a o
    pub best : All (λ x. is_candidate request now x ≡ true → Dominated a x) others
    pub second : IsRunnerUp o.bid.priority a.runner_up_price others

  pub not_candidate-rival :
      (priority : ℤ) (x : DynamicBid)
      → is_candidate request now x ≡ false
      → is_rival priority x ≡ true
      → ⊥
  not_candidate-rival priority x h k = ground arith

  pub skip-Lead :
      (a : Accumulator) (o x : DynamicBid) (others : List DynamicBid)
      → is_candidate request now x ≡ false
      → Lead a o others
      → Lead a o (x ∷ others)
  skip-Lead a o x others h l = record {
    won = l.won;
    best = (λ c. cc, l.best);
    second = (
      (λ c. absurd (not_candidate-rival o.bid.priority x h c), l.second.0),
      elim l.second.1 [ inl z ↦ inl z | inr (y, m, r, e) ↦ inr (y, mem-cons_of_mem x m, r, e) ],
    );
  }

  -- What an eligible offer does to a led auction.
  abbrev pub Contest : Accumulator → Accumulator → DynamicBid → DynamicBid → Type 0
  Contest a a' o x =
      let price = effective_price x.bid in
      let same = eqb_ℤ x.bid.priority o.bid.priority in
      ((ranks_ahead x.bid price o.bid a.winner_price ≡ true)
        × (a'.winner ≡ some x.bid)
        × (a'.winner_price ≡ price)
        × (a'.winner_bidder_id ≡ x.bidder_id)
        × (a'.runner_up_price ≡ (if same then a.winner_price else pos 0)))
      ⊎ ((ranks_ahead x.bid price o.bid a.winner_price ≡ false)
          × (a'.winner ≡ a.winner)
          × (a'.winner_price ≡ a.winner_price)
          × (a'.winner_bidder_id ≡ a.winner_bidder_id)
          × (a'.runner_up_price
              ≡ (if same && ltb_ℤ a.runner_up_price price then price else a.runner_up_price)))

  pub consider-Contest :
      (a : Accumulator) (o x : DynamicBid)
      → IsFor request now a
      → is_candidate request now x ≡ true
      → a.winner ≡ some o.bid
      → Contest a (consider a x.bid x.bidder_id) o x
  unfolding consider
  consider-Contest a o x f c e = ground arith

  pub Dominated-iff :
      (a : Accumulator) (x : DynamicBid) (w : Bid)
      → a.winner ≡ some w
      → Dominated a x ↔ (ranks_ahead x.bid (effective_price x.bid) w a.winner_price ≡ false)
  Dominated-iff a x w e = (λ d. rw e at d, λ h. rw e h)

  -- An offer that is overtaken, and those that it kept off, stay behind the new leader.
  pub overtake-best :
      (a a' : Accumulator) (o x : DynamicBid) (others : List DynamicBid)
      → Lead a o others
      → ranks_ahead x.bid (effective_price x.bid) o.bid a.winner_price ≡ true
      → WonBy request now a' x
      → All (λ y. is_candidate request now y ≡ true → Dominated a' y) (o ∷ others)
  overtake-best a a' o x others l h won = (
    λ _. (Dominated-iff a' o x.bid won.0).1 (
        rw (won.1, ← l.won.1)
          (ranks_ahead_asymm x.bid o.bid (effective_price x.bid) a.winner_price h)),
    All-mono _ _
        (λ y best c. (Dominated-iff a' y x.bid won.0).1 (
          rw won.1 (
            not_ahead_trans y.bid o.bid x.bid (effective_price y.bid) a.winner_price
              (effective_price x.bid) ((Dominated-iff a y o.bid l.won.0).0 (best c)) h)))
        others l.best,
  )

  rival_parts :
      (priority : ℤ) (y : DynamicBid)
      → is_rival priority y ≡ true
      → (is_candidate request now y ≡ true) × (y.bid.priority ≡ priority)
  rival_parts priority y h = ground (arith, eqb_ℤ_iff y.bid.priority priority)

  -- A rival of the overtaken offer has at most its price.
  rival-le :
      (a : Accumulator) (o y : DynamicBid)
      → a.winner ≡ some o.bid
      → (is_candidate request now y ≡ true → Dominated a y)
      → is_rival o.bid.priority y ≡ true
      → effective_price y.bid ≤ℤ a.winner_price
  rival-le a o y e best r =
      let parts = rival_parts o.bid.priority y r in
      (not_ahead_bounds y.bid o.bid (effective_price y.bid) a.winner_price
          ((Dominated-iff a y o.bid e).0 (best parts.0))).1
        ((eqb_ℤ_iff y.bid.priority o.bid.priority).1 parts.1)

  -- No rival of a strictly higher leader is among the offers that the overtaken one kept off.
  no_rival :
      (a : Accumulator) (o x y : DynamicBid)
      → a.winner ≡ some o.bid
      → (is_candidate request now y ≡ true → Dominated a y)
      → ranks_ahead x.bid (effective_price x.bid) o.bid a.winner_price ≡ true
      → eqb_ℤ x.bid.priority o.bid.priority ≡ false
      → is_rival x.bid.priority y ≡ true
      → ⊥
  no_rival a o x y e best h d r =
      let parts = rival_parts x.bid.priority y r in
      let below =
        (not_ahead_bounds y.bid o.bid (effective_price y.bid) a.winner_price
          ((Dominated-iff a y o.bid e).0 (best parts.0))).0 in
      let above = (ahead_bounds x.bid o.bid (effective_price x.bid) a.winner_price h).0 in
      ground (arith, ap pos_part parts.1, ap neg_part parts.1)

  second_same :
      (a : Accumulator) (o : DynamicBid) (others : List DynamicBid)
      → Lead a o others
      → IsRunnerUp o.bid.priority a.winner_price (o ∷ others)
  second_same a o others l = (
    (
      λ _. omega (arith, ap pos_part l.won.1, ap neg_part l.won.1),
      All-mono _ _ (λ y best r. rival-le a o y l.won.0 best r) others l.best,
    ),
    inr (
      o,
      mem-cons_self,
      ground (arith, l.won.3, eqb_ℤ_iff o.bid.priority o.bid.priority),
      l.won.1,
    ),
  )

  second_higher :
      (a : Accumulator) (o x : DynamicBid) (others : List DynamicBid)
      → Lead a o others
      → ranks_ahead x.bid (effective_price x.bid) o.bid a.winner_price ≡ true
      → eqb_ℤ x.bid.priority o.bid.priority ≡ false
      → IsRunnerUp x.bid.priority (pos 0) (o ∷ others)
  second_higher a o x others l h d = (
    (
      λ r. absurd (no_rival a o x o l.won.0 (λ _. self) h d r),
      All-mono _ _ (λ y best r. absurd (no_rival a o x y l.won.0 best h d r)) others l.best,
    ),
    inl refl,
  )
    where
      self : Dominated a o
      self =
          (Dominated-iff a o o.bid l.won.0).1
            (rw l.won.1 (ranks_ahead_irrefl o.bid (effective_price o.bid)))

  pub overtake-second :
      (a : Accumulator) (o x : DynamicBid) (others : List DynamicBid) (r : ℤ)
      → Lead a o others
      → ranks_ahead x.bid (effective_price x.bid) o.bid a.winner_price ≡ true
      → r ≡ (if eqb_ℤ x.bid.priority o.bid.priority then a.winner_price else pos 0)
      → IsRunnerUp x.bid.priority r (o ∷ others)
  overtake-second a o x others r l h e = elim (Bool-cases (eqb_ℤ x.bid.priority o.bid.priority)) [
    | inl same ↦
        subst₂ (λ p q. IsRunnerUp p q (o ∷ others))
          (sym ((eqb_ℤ_iff x.bid.priority o.bid.priority).0 same))
          (sym (e ∙ ap (λ t. if t then a.winner_price else pos 0) same)) (second_same a o others l)
    | inr higher ↦
        subst (λ q. IsRunnerUp x.bid.priority q (o ∷ others))
          (sym (e ∙ ap (λ t. if t then a.winner_price else pos 0) higher))
          (second_higher a o x others l h higher)
  ]

  -- An offer that does not overtake the leader raises the runner-up price if it is a rival.
  pub keep-second :
      (a : Accumulator) (o x : DynamicBid) (others : List DynamicBid) (r : ℤ)
      → IsRunnerUp o.bid.priority a.runner_up_price others
      → is_candidate request now x ≡ true
      → r ≡ (
          if eqb_ℤ x.bid.priority o.bid.priority && ltb_ℤ a.runner_up_price (effective_price x.bid)
          then effective_price x.bid
          else a.runner_up_price)
      → IsRunnerUp o.bid.priority r (x ∷ others)
  keep-second a o x others r s c e =
      elim (Bool-cases
        (eqb_ℤ x.bid.priority o.bid.priority && ltb_ℤ a.runner_up_price (effective_price x.bid))) [
          | inl up ↦
              subst (λ q. IsRunnerUp o.bid.priority q (x ∷ others)) (sym (e ∙ ap pick up))
                (
                  (λ _. omega arith, All-mono _ _ (λ y le rival. below y up (le rival)) others s.0),
                  inr (x, mem-cons_self, ground arith, refl),
                )
          | inr stay ↦
              subst (λ q. IsRunnerUp o.bid.priority q (x ∷ others)) (sym (e ∙ ap pick stay))
                (
                  (λ rival. ground arith, s.0),
                  elim s.1 [
                    | inl z ↦ inl z
                    | inr (y, m, rival, q) ↦ inr (y, mem-cons_of_mem x m, rival, q)
                  ],
                )
        ]
    where
      pick : Bool → ℤ
      pick t = if t then effective_price x.bid else a.runner_up_price

      below :
          (y : DynamicBid)
          → (eqb_ℤ x.bid.priority o.bid.priority && ltb_ℤ a.runner_up_price (effective_price x.bid))
            ≡ true
          → effective_price y.bid ≤ℤ a.runner_up_price
          → effective_price y.bid ≤ℤ effective_price x.bid
      below y up h = ground arith
