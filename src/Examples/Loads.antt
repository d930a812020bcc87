-- ===== src/Examples/Loads.antt =====
-- A load of one client, which makes one request.
use adserver.LoadTest.{
  Load, Indices, responded, steps, collects, closes, collector_ends, reads_clock, attempts, sends,
  finished, new_load, load_step, report,
}
use adserver.LoadTest.Counts.{LoadRun}
use adserver.LoadTest.Percentiles.{AreIndices, Reported, report-Reported}
use adserver.Examples.Sorting.{insertion_sort}
use adserver.Common.Word.{inc64}
use adserver.Common.Int.{pos}
use adserver.Common.{refl, true, false, [], ◌∷◌, ◌*◌, ◌/◌, arith}

abbrev ended_load : Load
ended_load = record {
  clients = finished ∷ [];
  capacity = 16;
  latencies = [];
  samples = pos 7 ∷ [];
  completed = 1;
  failures = 0;
  is_closed = true;
  is_collected = true;
}

ended_load-LoadRun : LoadRun 1 ended_load
unfolding new_load load_step inc64
ended_load-LoadRun =
    LoadRun.runs collector_ends
      (LoadRun.runs closes
        (LoadRun.runs collects
          (LoadRun.runs (steps 0 (reads_clock false))
            (LoadRun.runs (steps 0 sends)
              (LoadRun.runs (steps 0 (attempts (responded (pos 200)) (pos 7)))
                (LoadRun.runs (steps 0 (reads_clock true)) LoadRun.begins refl) refl)
              refl)
            refl)
          refl)
        refl)
      refl

abbrev indices : Indices
indices = record { at50 = λ n. n / 2; at95 = λ n. n * 95 / 100; at99 = λ n. n * 99 / 100 }

indices-AreIndices : AreIndices indices
indices-AreIndices = record {
  below95 = λ n. omega arith;
  below99 = λ n. omega arith;
  within = λ n. omega arith;
}

report-Reported_example : Reported ended_load (report insertion_sort indices ended_load)
report-Reported_example =
    report-Reported ended_load insertion_sort indices ended_load-LoadRun refl indices-AreIndices
