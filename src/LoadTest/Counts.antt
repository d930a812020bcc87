-- ===== src/LoadTest/Counts.antt =====
-- cmd/loadtest/main.go: what the counters of a load say, however its goroutines interleave.
use adserver.Common.Int.{ℤ}
use mathlib.Core.Path.{subst}
use adserver.Common.Word.{inc64}
use adserver.Common.{
  refl, true, some, zero, suc, [], ◌∷◌, ◌≡◌, ◌+◌, ◌^◌, ◌≤◌, ℕ, List, arith, length, ◌%◌, false, inl,
  inr, none, ◌⊎◌, Option, Bool-cases, ltb, length-append, ◌∙◌, ◌&&◌, sym, ap, not,
}
use adserver.LoadTest.{
  testing, requesting, finished, sending, reads_clock, attempts, sends, steps, collects, closes,
  collector_ends, nth, are_finished, Load, Client, set_client, new_load, LoadEvent, load_step,
  client_step, ClientEvent, is_success, step_of, replaced, all_testing, collect, finish,
}

-- Every run of a load.
pub data LoadRun (concurrency : ℕ) : Load → Type 0 where
  begins : LoadRun concurrency (new_load concurrency)
  runs :
      {l l' : Load} (e : LoadEvent)
      → LoadRun concurrency l
      → load_step l e ≡ some l'
      → LoadRun concurrency l'

-- Has the client counted a success that it has not sent?
abbrev pub owes : Client → ℕ
owes testing = 0
owes requesting = 0
owes finished = 0
owes (sending x) = 1

unfoldable pub owed : List Client → ℕ
owed [] = 0
owed (c ∷ cs) = owes c + owed cs

-- Every success is a sample, on its way in the channel or still to be sent, the channel holds at most its
-- capacity, and it is closed only behind the clients, collected only when it is closed and empty.
pub record IsCounted (l : Load) : Type 0 where
  pub counted : l.completed ≡ (length l.samples + length l.latencies + owed l.clients) % 2 ^ 64
  pub bounded : length l.latencies ≤ l.capacity
  pub closed_behind : l.is_closed ≡ true → are_finished l.clients ≡ true
  pub collected_empty : l.is_collected ≡ true → (l.is_closed ≡ true) × (l.latencies ≡ [])

owed-set_client :
    (i : ℕ) (c d : Client) (cs : List Client)
    → nth i cs ≡ some c
    → owed (set_client i d cs) + owes c ≡ owed cs + owes d
unfolding owed set_client nth
owed-set_client i c d [] h = absurd (ground arith)
owed-set_client zero c d (x ∷ xs) h = let e : x ≡ c = ground arith in rw e (omega arith)
owed-set_client (suc i) c d (x ∷ xs) h = omega (arith, owed-set_client i c d xs h)

pub owed-are_finished : (cs : List Client) → are_finished cs ≡ true → owed cs ≡ 0
unfolding owed are_finished
owed-are_finished [] h = refl
owed-are_finished (testing ∷ cs) h = absurd (ground arith)
owed-are_finished (requesting ∷ cs) h = absurd (ground arith)
owed-are_finished (sending x ∷ cs) h = absurd (ground arith)
owed-are_finished (finished ∷ cs) h = omega (arith, owed-are_finished cs h)

-- A client among finished ones is finished.
nth-are_finished :
    (i : ℕ) (c : Client) (cs : List Client)
    → nth i cs ≡ some c
    → are_finished cs ≡ true
    → c ≡ finished
unfolding nth are_finished
nth-are_finished i c [] h k = absurd (ground arith)
nth-are_finished i c (testing ∷ cs) h k = absurd (ground arith)
nth-are_finished i c (requesting ∷ cs) h k = absurd (ground arith)
nth-are_finished i c (sending x ∷ cs) h k = absurd (ground arith)
nth-are_finished zero c (finished ∷ cs) h k = ground arith
nth-are_finished (suc i) c (finished ∷ cs) h k = nth-are_finished i c cs h k

-- What the step of a client changes: it counts no success, or one that it then owes.
abbrev Steps : Load → Client → Option (Load × Client) → Type 0
Steps l c none = Unit
Steps l c (some (k, d)) =
    ((c ≡ finished) → ⊥)
    × (k.clients ≡ l.clients)
    × (k.samples ≡ l.samples)
    × (k.is_closed ≡ l.is_closed)
    × (k.is_collected ≡ l.is_collected)
    × (length k.latencies ≤ k.capacity)
    × (((k.completed ≡ l.completed) × (length k.latencies + owes d ≡ length l.latencies + owes c))
        ⊎ ((k.completed ≡ inc64 l.completed)
            × (length k.latencies + owes d ≡ suc (length l.latencies + owes c))))

client_step-Steps :
    (l : Load) (c : Client) (e : ClientEvent)
    → length l.latencies ≤ l.capacity
    → Steps l c (client_step l c e)
unfolding client_step
client_step-Steps l testing (reads_clock true) b = ground arith
client_step-Steps l testing (reads_clock false) b = ground arith
client_step-Steps l testing e b = tt
client_step-Steps l requesting (attempts a elapsed) b = elim (Bool-cases (is_success a)) [
  | inl t ↦ rw t (ground arith)
  | inr t ↦ rw t (ground arith)
]
client_step-Steps l requesting e b = tt
client_step-Steps l (sending x) sends b = elim (Bool-cases (ltb (length l.latencies) l.capacity)) [
  | inl t ↦ rw t (ground (arith, length-append l.latencies (x ∷ [])))
  | inr t ↦ rw t tt
]
client_step-Steps l (sending x) e b = tt
client_step-Steps l finished e b = tt

abbrev Counted : Option Load → Type 0
Counted none = Unit
Counted (some l) = IsCounted l

replaced-Counted :
    (l : Load) (i : ℕ) (c : Client) (r : Option (Load × Client))
    → IsCounted l
    → nth i l.clients ≡ some c
    → Steps l c r
    → Counted (replaced i r)
unfolding replaced inc64
replaced-Counted l i c none v h s = tt
replaced-Counted l i c (some (k, d)) v h s =
    let o = owed-set_client i c d l.clients h in
    let open_still : l.is_closed ≡ true → ⊥ =
      λ q. s.0 (nth-are_finished i c l.clients h (v.closed_behind q)) in
    record {
      counted = rw (s.1, s.2) (sum_of s.6 o);
      bounded = s.5;
      closed_behind = λ q. absurd (open_still (sym s.3 ∙ q));
      collected_empty = λ q. absurd (open_still (v.collected_empty (sym s.4 ∙ q)).0);
    }
  where
    sum_of :
        (((k.completed ≡ l.completed) × (length k.latencies + owes d ≡ length l.latencies + owes c))
          ⊎ ((k.completed ≡ inc64 l.completed)
              × (length k.latencies + owes d ≡ suc (length l.latencies + owes c))))
        → owed (set_client i d l.clients) + owes c ≡ owed l.clients + owes d
        → k.completed
          ≡ (length l.samples + length k.latencies + owed (set_client i d l.clients)) % 2 ^ 64
    sum_of (inl (a, b)) o = omega (arith, v.counted)
    sum_of (inr (a, b)) o = omega (arith, v.counted)

step_of-Counted :
    (l : Load) (i : ℕ) (o : Option Client) (e : ClientEvent)
    → IsCounted l
    → nth i l.clients ≡ o
    → Counted (step_of l i o e)
unfolding step_of
step_of-Counted l i none e v h = tt
step_of-Counted l i (some c) e v h =
    replaced-Counted l i c (client_step l c e) v h (client_step-Steps l c e v.bounded)

load_step-Counted : (l : Load) (e : LoadEvent) → IsCounted l → Counted (load_step l e)
unfolding load_step collect finish
load_step-Counted l (steps i e) v = step_of-Counted l i (nth i l.clients) e v refl
load_step-Counted l collects v = collected l.latencies refl
  where
    collected : (xs : List ℤ) → l.latencies ≡ xs → Counted (collect l xs)
    collected [] h = tt
    collected (x ∷ xs) h =
        let n : length l.latencies ≡ suc (length xs) = ap length h in
        record {
          counted = omega (arith, v.counted, length-append l.samples (x ∷ []));
          bounded = omega (arith, v.bounded);
          closed_behind = v.closed_behind;
          collected_empty = λ q. absurd (ground (arith, v.collected_empty q));
        }
load_step-Counted l closes v = elim (Bool-cases (are_finished l.clients && not l.is_closed)) [
  | inl t ↦ rw t (record {
    counted = v.counted;
    bounded = v.bounded;
    closed_behind = λ q. ground arith;
    collected_empty = λ q. (refl, (v.collected_empty q).1);
  })
  | inr t ↦ rw t tt
]
load_step-Counted l collector_ends v = ending l.latencies refl
  where
    ending : (xs : List ℤ) → l.latencies ≡ xs → Counted (finish l xs)
    ending (x ∷ xs) h = tt
    ending [] h = elim (Bool-cases l.is_closed) [
      | inl t ↦ rw t (record {
        counted = v.counted;
        bounded = v.bounded;
        closed_behind = λ q. v.closed_behind t;
        collected_empty = λ q. (refl, h);
      })
      | inr t ↦ rw t tt
    ]

new_load-IsCounted : (n : ℕ) → IsCounted (new_load n)
unfolding new_load owed
new_load-IsCounted n = record {
  counted = omega (arith, owed-all_testing n);
  bounded = omega arith;
  closed_behind = λ q. absurd (ground arith);
  collected_empty = λ q. absurd (ground arith);
}
  where
    owed-all_testing : (n : ℕ) → owed (all_testing n) ≡ 0
    owed-all_testing zero = refl
    owed-all_testing (suc n) = omega (arith, owed-all_testing n)

-- In every run of a load, however its clients, its collector and the end of `main` interleave: the number
-- of successes, at 64 bits, is the number of samples, of latencies in the channel and of those still to be
-- sent; the channel holds at most its capacity; it is closed only when every client is finished; and the
-- collector ends only when it is closed and empty.
pub LoadRun-IsCounted : {n : ℕ} (l : Load) → LoadRun n l → IsCounted l
LoadRun-IsCounted l begins = new_load-IsCounted _
LoadRun-IsCounted l (runs {l = k} e r h) =
    subst Counted h (load_step-Counted k e (LoadRun-IsCounted k r))
