-- ===== src/Process/Shutdown.antt =====
-- cmd/adserver/main.go: how the process stops, once its context is done.
use mathlib.Core.List.{append-nil, append_assoc}
use adserver.Server.{Server}
use adserver.DecisionLog.{run_logger, close_entries, run_once, DecisionLogger, DecisionLog}
use adserver.Server.Setup.{close}
use adserver.Process.{Process}
use adserver.Common.{
  refl, true, some, none, zero, suc, [], ◌∷◌, ◌≡◌, ◌++◌, List, ℕ, length, Bool, ◌∙◌,
}

-- What `main` does, in its order: the deferred `Close` of the server comes last.
pub data StopAction : Type 0 where
  shuts_http shuts_debug closes_store closes_server : StopAction

unfoldable pub stop_actions : Process → List StopAction
stop_actions p = shuts_http ∷ elim p.debug_addr [
  | none ↦ closes_store ∷ closes_server ∷ []
  | some addr ↦ shuts_debug ∷ closes_store ∷ closes_server ∷ []
]

-- The rounds of the logger's goroutine for which `Close` waits.
unfoldable pub drain : ℕ → DecisionLogger → DecisionLogger
unfolding run_logger
drain zero d = d
drain (suc rounds) d = drain rounds (run_logger d)

drain-entries :
    (entries written : List DecisionLog) (capacity dropped : ℕ) (done : Bool)
    → drain (suc (length entries)) (record {
      capacity = capacity;
      entries = entries;
      written = written;
      dropped = dropped;
      is_closed = true;
      is_done = done;
    })
      ≡ record {
        capacity = capacity;
        entries = [];
        written = written ++ entries;
        dropped = dropped;
        is_closed = true;
        is_done = true;
      }
unfolding drain run_logger run_once
drain-entries [] written capacity dropped done = rw (append-nil written) refl
drain-entries (e ∷ es) written capacity dropped done =
    drain-entries es (written ++ e ∷ []) capacity dropped done
    ∙ rw (append_assoc written (e ∷ []) es) refl

-- The `Close` of the server ends: behind a round for each entry of the queue and one more, the goroutine
-- is done, and every entry that was queued is written, in order, behind those that were written before.
pub drain-close :
    (s : Server) (d : DecisionLogger)
    → s.decision_logger ≡ some d
    → (c : DecisionLogger) × ((close s).decision_logger ≡ some c)
      × (drain (suc (length d.entries)) c ≡ record d {
        entries = [];
        written = d.written ++ d.entries;
        is_closed = true;
        is_done = true;
      })
unfolding close close_entries
drain-close s d h =
    (close_entries d, rw h refl, drain-entries d.entries d.written d.capacity d.dropped d.is_done)
