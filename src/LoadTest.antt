-- ===== src/LoadTest.antt =====
-- cmd/loadtest/main.go: the clients that load an endpoint for a while, the collector of their latencies
-- and the report. A goroutine stands at a stage, and the steps of the goroutines come in any order.
-- Flags, requests and printing are input and output; so is the rate, which is not an integer.
pub mod Counts
pub mod Percentiles
use adserver.Common.Sorting.{SliceSort}
use adserver.Common.Word.{inc64}
use adserver.Common.Int.{ℤ, pos, ltb_ℤ, leb_ℤ, eqb_ℤ}
use adserver.Common.{
  true, false, some, none, zero, suc, [], ◌∷◌, ◌&&◌, ◌||◌, ◌++◌, ◌*◌, ◌-◌, if◌then◌else◌, not, ltb,
  length, Option, List, Bool, ℕ,
}

-- A load of no client or of no time is refused, with the exit status 2.
unfoldable pub is_runnable : ℤ → ℤ → Bool
is_runnable concurrency duration = not (ltb_ℤ concurrency (pos 1) || leb_ℤ duration (pos 0))

-- What comes of an attempt: `NewRequest` or `Do` fails, or a response has a status.
pub data Attempt : Type 0 where
  not_made no_response : Attempt
  responded : ℤ → Attempt

unfoldable pub is_success : Attempt → Bool
is_success not_made = false
is_success no_response = false
is_success (responded status) = eqb_ℤ status (pos 200)

-- Where a client stands: at its test of the deadline, at its request, at the send of a latency, which
-- blocks while the channel is full, and behind its end.
pub data Client : Type 0 where
  testing requesting finished : Client
  sending : ℤ → Client

pub record Load : Type 0 where
  pub clients : List Client
  pub capacity : ℕ
  pub latencies : List ℤ
  pub samples : List ℤ
  pub completed : ℕ
  pub failures : ℕ
  pub is_closed : Bool
  pub is_collected : Bool

abbrev all_testing : ℕ → List Client
all_testing zero = []
all_testing (suc n) = testing ∷ all_testing n

unfoldable pub new_load : ℕ → Load
new_load concurrency = record {
  clients = all_testing concurrency;
  capacity = concurrency * 16;
  latencies = [];
  samples = [];
  completed = 0;
  failures = 0;
  is_closed = false;
  is_collected = false;
}

-- The clock is read, before the deadline or not; an attempt comes to its end, with the time it took; a
-- latency is sent.
pub data ClientEvent : Type 0 where
  reads_clock : Bool → ClientEvent
  attempts : Attempt → ℤ → ClientEvent
  sends : ClientEvent

-- The step of a client; `none` where it has no such step.
unfoldable pub client_step : Load → Client → ClientEvent → Option (Load × Client)
unfolding is_success
client_step l testing (reads_clock before) = some (l, if before then requesting else finished)
client_step l testing e = none
client_step l requesting (attempts a elapsed) = some (
    if is_success a
    then (record l { completed = inc64 l.completed }, sending elapsed)
    else (record l { failures = inc64 l.failures }, testing))
client_step l requesting e = none
client_step l (sending elapsed) sends =
    if ltb (length l.latencies) l.capacity
    then some (record l { latencies = l.latencies ++ elapsed ∷ [] }, testing)
    else none
client_step l (sending elapsed) e = none
client_step l finished e = none

unfoldable pub nth {ℓ} : {A : Type ℓ} → ℕ → List A → Option A
nth i [] = none
nth zero (x ∷ xs) = some x
nth (suc i) (x ∷ xs) = nth i xs

unfoldable pub set_client : ℕ → Client → List Client → List Client
set_client i c [] = []
set_client zero c (x ∷ xs) = c ∷ xs
set_client (suc i) c (x ∷ xs) = x ∷ set_client i c xs

unfoldable pub are_finished : List Client → Bool
are_finished [] = true
are_finished (finished ∷ cs) = are_finished cs
are_finished (c ∷ cs) = false

-- A client steps; the collector takes a latency from the channel; `workers.Wait` is over and the channel
-- is closed; the collector sees the closed channel empty.
pub data LoadEvent : Type 0 where
  steps : ℕ → ClientEvent → LoadEvent
  collects closes collector_ends : LoadEvent

unfoldable pub replaced : ℕ → Option (Load × Client) → Option Load
unfolding set_client
replaced i none = none
replaced i (some (l, c)) = some (record l { clients = set_client i c l.clients })

unfoldable pub step_of : Load → ℕ → Option Client → ClientEvent → Option Load
unfolding replaced client_step
step_of l i none e = none
step_of l i (some c) e = replaced i (client_step l c e)

unfoldable pub collect : Load → List ℤ → Option Load
collect l [] = none
collect l (x ∷ xs) = some (record l { latencies = xs; samples = l.samples ++ x ∷ [] })

unfoldable pub finish : Load → List ℤ → Option Load
finish l [] = if l.is_closed then some (record l { is_collected = true }) else none
finish l (x ∷ xs) = none

unfoldable pub load_step : Load → LoadEvent → Option Load
unfolding step_of collect finish nth are_finished
load_step l (steps i e) = step_of l i (nth i l.clients) e
load_step l collects = collect l l.latencies
load_step l closes =
    if are_finished l.clients && not l.is_closed then some (record l { is_closed = true }) else none
load_step l collector_ends = finish l l.latencies

-- `percentile`: the index is what `int(float64(n) * percentile)` is of the last index; `none` is a panic.
unfoldable pub percentile : List ℤ → (ℕ → ℕ) → Option ℤ
unfolding nth
percentile samples index = nth (index (length samples - 1)) samples

pub record Report : Type 0 where
  pub requests : ℕ
  pub failures : ℕ
  pub p50 : ℤ
  pub p95 : ℤ
  pub p99 : ℤ
  pub max : ℤ

pub record Indices : Type 0 where
  pub at50 : ℕ → ℕ
  pub at95 : ℕ → ℕ
  pub at99 : ℕ → ℕ

-- The end of `main`: without a sample it exits with status 1.
pub data Outcome : Type 0 where
  no_requests panics : Outcome
  reports : Report → Outcome

unfoldable pub report_of : Load → Option ℤ → Option ℤ → Option ℤ → Option ℤ → Outcome
report_of l (some a) (some b) (some c) (some d) =
    reports
      (record { requests = l.completed; failures = l.failures; p50 = a; p95 = b; p99 = c; max = d })
report_of l a b c d = panics

unfoldable pub report_samples : SliceSort ℤ → Indices → Load → List ℤ → Outcome
unfolding percentile nth report_of
report_samples s ix l [] = no_requests
report_samples s ix l (x ∷ xs) =
    let sorted = s.sort ltb_ℤ (x ∷ xs) in
    report_of l (percentile sorted ix.at50) (percentile sorted ix.at95) (percentile sorted ix.at99)
      (nth (length sorted - 1) sorted)

unfoldable pub report : SliceSort ℤ → Indices → Load → Outcome
unfolding report_samples
report s ix l = report_samples s ix l l.samples
