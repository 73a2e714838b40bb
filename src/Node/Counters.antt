-- ===== src/Node/Counters.antt =====
-- The counters of a `TeamServicer` that serves several calls at the same time: `serve` has a pool of
-- ten threads, and no lock stands around the two updates at the end of `Fetch`. Each `+=` reads the
-- attribute and then writes it, and other threads may run in between.
pub mod Bounds
use mini2_anu_asim.Prelude.{ℕ, suc, ◌+◌, ◌≡◌, Bool, ◌==◌, if◌then◌else◌}

-- Where a thread is in the two updates; it keeps what it has read and the time of its call.
pub data Phase : Type 0 where
  elsewhere : Phase
  read_count : ℕ → ℕ → Phase
  between : ℕ → Phase
  read_total : ℕ → ℕ → Phase

pub record Counters : Type 0 where
  pub req_count : ℕ
  pub total_ns : ℕ
  pub phase : ℕ → Phase

abbrev pub moved : (ℕ → Phase) → ℕ → Phase → ℕ → Phase
moved f i p j = if i == j then p else f j

abbrev pub fresh_counters : Counters
fresh_counters = record { req_count = 0; total_ns = 0; phase = λ _. elsewhere }

-- A run in which `n` calls have written the first counter, and calls of `d` nanoseconds together the
-- second.
pub data Run : Counters → ℕ → ℕ → Type 0 where
  fresh : Run fresh_counters 0 0
  count_read :
      {s : Counters} {n d : ℕ} (i dt : ℕ)
      → Run s n d
      → s.phase i ≡ elsewhere
      → Run (record s { phase = moved s.phase i (read_count s.req_count dt) }) n d
  count_written :
      {s : Counters} {n d : ℕ} (i c dt : ℕ)
      → Run s n d
      → s.phase i ≡ read_count c dt
      → Run (record s { req_count = c + 1; phase = moved s.phase i (between dt) }) (suc n) d
  total_read :
      {s : Counters} {n d : ℕ} (i dt : ℕ)
      → Run s n d
      → s.phase i ≡ between dt
      → Run (record s { phase = moved s.phase i (read_total s.total_ns dt) }) n d
  total_written :
      {s : Counters} {n d : ℕ} (i t dt : ℕ)
      → Run s n d
      → s.phase i ≡ read_total t dt
      → Run (record s { total_ns = t + dt; phase = moved s.phase i elsewhere }) n (d + dt)
