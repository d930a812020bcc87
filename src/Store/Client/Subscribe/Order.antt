-- ===== src/Store/Client/Subscribe/Order.antt =====
-- internal/ads/store.go, `Subscribe`: messages are passed on in order, and at most one is lost.
use mathlib.Core.Path.{subst}
use adserver.Common.Text.{Str}
use adserver.Common.{
  refl, true, inl, inr, some, none, [], ◌∷◌, ◌≡◌, ◌⊎◌, ◌++◌, ◌≤◌, List, Option, length, ◌≢◌, arith,
  ap, Bool-cases, ltb, length-append, ltb→lt, ◌∙◌, sym,
}
use adserver.Store.Client.Subscribe.{
  waiting, ended, sending, delivers, sends, sees_done, finds_closed, takes, cancels, Forwarder,
  Subscription, take_message, forward_at, subscribe, forward_waiting, out_size, forward,
  forward_sending,
}
use mathlib.Core.List.{append_assoc, append-nil}

-- A run of a subscription: the messages that Redis has delivered, those that the reader has taken, and
-- the state that is reached.
pub data Delivery : List Str → List Str → Subscription → Type 0 where
  opens : {s : Subscription} → subscribe true ≡ some s → Delivery [] [] s
  gets :
      {received taken : List Str} {s s' : Subscription} (message : Str)
      → Delivery received taken s
      → forward s (delivers message) ≡ some s'
      → Delivery (received ++ message ∷ []) taken s'
  gives :
      {received taken : List Str} {s s' : Subscription} (message : Str) (rest : List Str)
      → Delivery received taken s
      → s.out ≡ message ∷ rest
      → forward s takes ≡ some s'
      → Delivery received (taken ++ message ∷ []) s'
  passes :
      {received taken : List Str} {s s' : Subscription}
      → Delivery received taken s
      → forward s sends ≡ some s'
      → Delivery received taken s'
  stops :
      {received taken : List Str} {s s' : Subscription}
      → Delivery received taken s
      → (forward s sees_done ≡ some s')
        ⊎ (forward s finds_closed ≡ some s')
        ⊎ (forward s cancels ≡ some s')
      → Delivery received taken s'

abbrev pub held : Forwarder → List Str
held waiting = []
held ended = []
held (sending message) = message ∷ []

-- What was delivered is, in order, what was taken, what is in the channel, what the goroutine holds, and
-- a message that it held when it saw the context done, if there is one.
pub record InOrder (received taken : List Str) (s : Subscription) : Type 0 where
  pub lost : List Str
  pub in_order : received ≡ taken ++ (s.out ++ (held s.stage ++ lost))
  pub bounded : length s.out ≤ out_size
  pub lost_at_end : (lost ≡ []) ⊎ ((length lost ≡ 1) × (s.stage ≡ ended) × (s.is_done ≡ true))

abbrev Kept : List Str → List Str → Option Subscription → Type 0
Kept received taken none = Unit
Kept received taken (some s) = InOrder received taken s

nothing_lost :
    {received taken : List Str} (s : Subscription) (v : InOrder received taken s)
    → s.stage ≢ ended
    → v.lost ≡ []
nothing_lost s v h = elim v.lost_at_end [ inl e ↦ e | inr k ↦ absurd (h k.1) ]

module _ {received taken : List Str} (s : Subscription) (v : InOrder received taken s) where
  in_order_at : (g : Forwarder) → s.stage ≡ g → g ≢ ended → received ≡ taken ++ (s.out ++ held g)
  in_order_at g e h =
      v.in_order
      ∙ ap (λ l. taken ++ (s.out ++ (held s.stage ++ l))) (nothing_lost s v (λ k. h (sym e ∙ k)))
      ∙ ap (λ l. taken ++ (s.out ++ l)) (append-nil (held s.stage) ∙ ap held e)

  delivers-Kept :
      (message : Str) (g : Forwarder)
      → s.stage ≡ g
      → Kept (received ++ message ∷ []) taken (forward_at s g (delivers message))
  unfolding forward_at forward_waiting forward_sending
  delivers-Kept message waiting e = record {
    lost = [];
    in_order =
        ap (λ r. r ++ message ∷ []) (in_order_at waiting e (λ h. cc))
        ∙ simp (append_assoc, append-nil);
    bounded = v.bounded;
    lost_at_end = inl refl;
  }
  delivers-Kept message (sending other) e = tt
  delivers-Kept message ended e = tt

  sends-Kept : (g : Forwarder) → s.stage ≡ g → Kept received taken (forward_at s g sends)
  unfolding forward_at forward_waiting forward_sending
  sends-Kept waiting e = tt
  sends-Kept (sending message) e = elim (Bool-cases (ltb (length s.out) out_size)) [
    | inl t ↦ rw t (record {
      lost = [];
      in_order = in_order_at (sending message) e (λ h. cc) ∙ simp (append_assoc, append-nil);
      bounded = omega (arith, length-append s.out (message ∷ []), ltb→lt (length s.out) out_size t);
      lost_at_end = inl refl;
    })
    | inr t ↦ rw t tt
  ]
  sends-Kept ended e = tt

  takes-Kept :
      (message : Str) (rest : List Str)
      → s.out ≡ message ∷ rest
      → Kept received (taken ++ message ∷ []) (take_message s (message ∷ rest))
  unfolding take_message
  takes-Kept message rest e = record {
    lost = v.lost;
    in_order =
        v.in_order ∙ ap (λ o. taken ++ (o ++ (held s.stage ++ v.lost))) e ∙ simp (append_assoc);
    bounded = omega (arith, v.bounded, ap length e);
    lost_at_end = v.lost_at_end;
  }

  sees_done-Kept : (g : Forwarder) → s.stage ≡ g → Kept received taken (forward_at s g sees_done)
  unfolding forward_at forward_waiting forward_sending
  sees_done-Kept waiting e = tt
  sees_done-Kept (sending message) e = elim (Bool-cases s.is_done) [
    | inl t ↦ rw t (record {
      lost = message ∷ [];
      in_order = in_order_at (sending message) e (λ h. cc);
      bounded = v.bounded;
      lost_at_end = inr (refl, refl, refl);
    })
    | inr t ↦ rw t tt
  ]
  sees_done-Kept ended e = tt

  finds_closed-Kept :
      (g : Forwarder) → s.stage ≡ g → Kept received taken (forward_at s g finds_closed)
  unfolding forward_at forward_waiting forward_sending
  finds_closed-Kept waiting e = record {
    lost = [];
    in_order = in_order_at waiting e (λ h. cc) ∙ simp (append-nil);
    bounded = v.bounded;
    lost_at_end = inl refl;
  }
  finds_closed-Kept (sending message) e = tt
  finds_closed-Kept ended e = tt

  cancels-Kept : Kept received taken (forward s cancels)
  unfolding forward
  cancels-Kept = record {
    lost = v.lost;
    in_order = v.in_order;
    bounded = v.bounded;
    lost_at_end = elim v.lost_at_end [ inl e ↦ inl e | inr k ↦ inr (k.0, k.1, refl) ];
  }

opened-Kept : Kept [] [] (subscribe true)
unfolding subscribe
opened-Kept = record { lost = []; in_order = refl; bounded = omega arith; lost_at_end = inl refl }

-- In every run of a subscription: what Redis has delivered is, in the same order, what the reader has
-- taken, what the channel holds, at most 128 messages, and what the goroutine holds; only a goroutine
-- that has ended because its context is done has lost a message, and no more than the one it held.
pub Delivery-InOrder :
    {received taken : List Str} {s : Subscription}
    → Delivery received taken s
    → InOrder received taken s
unfolding forward
Delivery-InOrder (opens h) = subst (λ o. Kept [] [] o) h opened-Kept
Delivery-InOrder (gets {s = s} message d h) =
    subst (Kept _ _) h (delivers-Kept s (Delivery-InOrder d) message s.stage refl)
Delivery-InOrder (gives {s = s} message rest d e h) =
    subst (Kept _ _) (ap (take_message s) (sym e) ∙ h)
      (takes-Kept s (Delivery-InOrder d) message rest e)
Delivery-InOrder (passes {s = s} d h) =
    subst (Kept _ _) h (sends-Kept s (Delivery-InOrder d) s.stage refl)
Delivery-InOrder (stops {s = s} d h) = elim h [
  | inl k ↦ subst (Kept _ _) k (sees_done-Kept s (Delivery-InOrder d) s.stage refl)
  | inr k ↦ elim k [
    | inl k ↦ subst (Kept _ _) k (finds_closed-Kept s (Delivery-InOrder d) s.stage refl)
    | inr k ↦ subst (Kept _ _) k (cancels-Kept s (Delivery-InOrder d))
  ]
]
