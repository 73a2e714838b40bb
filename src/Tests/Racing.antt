-- ===== src/Tests/Racing.antt =====
-- Two calls of `Fetch` that end at the same time.
use mini2_anu_asim.Prelude.{refl}
use mini2_anu_asim.Node.Counters.{
  Counters, between, moved, fresh_counters, read_count, Run, fresh, count_read, count_written,
}

-- Both have read 0, and both write 1.
abbrev lost : Counters
lost = record {
  req_count = 1;
  total_ns = 0;
  phase =
      moved
        (moved (moved (moved fresh_counters.phase 0 (read_count 0 700)) 1 (read_count 0 900)) 0
          (between 700))
        1 (between 900);
}

lost_update : Run lost 2 0
lost_update =
    count_written 1 0 900
      (count_written 0 0 700 (count_read 1 900 (count_read 0 700 fresh refl) refl) refl) refl
