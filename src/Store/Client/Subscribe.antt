-- ===== src/Store/Client/Subscribe.antt =====
-- internal/ads/store.go, `Subscribe`: the goroutine that passes the messages of a subscription on, through
-- a channel of 128, until its context is done or the subscription is closed.
pub mod Order
use adserver.Common.Text.{Str}
use adserver.Common.{
  true, false, some, none, [], ◌∷◌, ◌++◌, if◌then◌else◌, Option, Bool, List, ℕ, ltb, length,
}

-- Where the goroutine stands: before a message, before the `select` that sends one, and behind its end.
pub data Forwarder : Type 0 where
  waiting ended : Forwarder
  sending : Str → Forwarder

-- The channel's messages, oldest first; it is closed behind the end. `is_done` is the context's.
pub record Subscription : Type 0 where
  pub stage : Forwarder
  pub out : List Str
  pub is_done : Bool

abbrev pub out_size : ℕ
out_size = 128

-- `none` is the error of the first `Receive`.
unfoldable pub subscribe : Bool → Option Subscription
subscribe false = none
subscribe true = some (record { stage = waiting; out = []; is_done = false })

-- What happens next: Redis delivers a message, the goroutine sends, sees the context done or finds the
-- subscription closed, a reader takes a message, the context is cancelled.
pub data ForwardEvent : Type 0 where
  delivers : Str → ForwardEvent
  sends sees_done finds_closed takes cancels : ForwardEvent

unfoldable pub forward_waiting : Subscription → ForwardEvent → Option Subscription
forward_waiting s (delivers message) = some (record s { stage = sending message })
forward_waiting s finds_closed = some (record s { stage = ended })
forward_waiting s sends = none
forward_waiting s sees_done = none
forward_waiting s takes = none
forward_waiting s cancels = none

unfoldable pub forward_sending : Subscription → Str → ForwardEvent → Option Subscription
forward_sending s message (delivers other) = none
forward_sending s message finds_closed = none
forward_sending s message sends =
    if ltb (length s.out) out_size
    then some (record s { stage = waiting; out = s.out ++ message ∷ [] })
    else none
forward_sending s message sees_done = if s.is_done then some (record s { stage = ended }) else none
forward_sending s message takes = none
forward_sending s message cancels = none

unfoldable pub forward_at : Subscription → Forwarder → ForwardEvent → Option Subscription
unfolding forward_waiting forward_sending
forward_at s waiting event = forward_waiting s event
forward_at s (sending message) event = forward_sending s message event
forward_at s ended event = none

unfoldable pub take_message : Subscription → List Str → Option Subscription
take_message s [] = none
take_message s (message ∷ rest) = some (record s { out = rest })

-- The next state, where the event can happen.
unfoldable pub forward : Subscription → ForwardEvent → Option Subscription
unfolding forward_at take_message
forward s takes = take_message s s.out
forward s cancels = some (record s { is_done = true })
forward s (delivers message) = forward_at s s.stage (delivers message)
forward s sends = forward_at s s.stage sends
forward s sees_done = forward_at s s.stage sees_done
forward s finds_closed = forward_at s s.stage finds_closed
