-- ===== src/Node/Counters/Bounds.antt =====
-- What the counters can be off by: updates may be lost, and none is invented.
use mini2_anu_asim.Prelude.{ℕ, ◌≤◌, ◌<◌, ◌≡◌, arith}
use mini2_anu_asim.Node.Counters.{
  read_count, read_total, Counters, Run, fresh, count_read, count_written, total_read,
  total_written,
}

record IsBounded (s : Counters) (n d : ℕ) : Type 0 where
  count : s.req_count ≤ n
  some_count : 0 < n → 0 < s.req_count
  total : s.total_ns ≤ d
  old_count : (i c dt : ℕ) → s.phase i ≡ read_count c dt → c ≤ n
  old_total : (i t dt : ℕ) → s.phase i ≡ read_total t dt → t ≤ d

Run-IsBounded : {s : Counters} {n d : ℕ} → Run s n d → IsBounded s n d
Run-IsBounded fresh = record {
  count = omega arith;
  some_count = λ h. omega arith;
  total = omega arith;
  old_count = λ i c dt h. absurd (cc);
  old_total = λ i t dt h. absurd (cc);
}
Run-IsBounded (count_read i dt r e) =
    let b = Run-IsBounded r in
    record {
      count = b.count;
      some_count = b.some_count;
      total = b.total;
      old_count = λ j c dt' h. ground (arith, b.count, b.old_count j c dt');
      old_total = λ j t dt' h. ground (arith, b.old_total j t dt');
    }
Run-IsBounded (count_written i c dt r e) =
    let b = Run-IsBounded r in
    record {
      count = omega (arith, b.old_count i c dt e);
      some_count = λ h. omega arith;
      total = b.total;
      old_count = λ j c' dt' h. ground (arith, b.old_count j c' dt');
      old_total = λ j t dt' h. ground (arith, b.old_total j t dt');
    }
Run-IsBounded (total_read i dt r e) =
    let b = Run-IsBounded r in
    record {
      count = b.count;
      some_count = b.some_count;
      total = b.total;
      old_count = λ j c dt' h. ground (arith, b.old_count j c dt');
      old_total = λ j t dt' h. ground (arith, b.total, b.old_total j t dt');
    }
Run-IsBounded (total_written i t dt r e) =
    let b = Run-IsBounded r in
    record {
      count = b.count;
      some_count = b.some_count;
      total = omega (arith, b.old_total i t dt e);
      old_count = λ j c dt' h. ground (arith, b.old_count j c dt');
      old_total = λ j t' dt' h. ground (arith, b.old_total j t' dt');
    }

-- However the threads of a Python node are interleaved, `_req_count` is at most the number of calls
-- that have counted themselves, and not 0 if there is one; and `_total_ns` is at most the time that
-- calls have added.
pub never_overcounts :
    {s : Counters} {n d : ℕ}
    → Run s n d
    → (s.req_count ≤ n) × (0 < n → 0 < s.req_count) × (s.total_ns ≤ d)
never_overcounts r = let b = Run-IsBounded r in (b.count, b.some_count, b.total)
