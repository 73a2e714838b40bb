-- ===== src/Document/Figures.antt =====
-- The tables of the report from the figures at the head of the script and from the client's paging.
use mini2_anu_asim.Prelude.{ℕ, ◌+◌, ◌*◌, ◌/◌, ◌≡◌, refl, String, List, [], ◌∷◌, map}
use mini2_anu_asim.Prelude.Int.{pos}
use mini2_anu_asim.Leader.Pages.{chunk_bytes, requested}
use mini2_anu_asim.Client.Pages.{page_count}
use mini2_anu_asim.Document.Texts.{
  Value, int, float, chunks, total_us, median_us, p90_us, cv, questions, rows, rows_tail,
}
use mini2_anu_asim.Document.Grids.{pair_row}

-- The calls that the client makes for the 80,000 records of the response.
abbrev pub pages : ℕ → ℕ
pages chunk = page_count (chunk_bytes (pos chunk)) (20 * 80000)

-- Microseconds in tenths of a millisecond, rounded.
abbrev pub tenths : ℕ → ℕ
tenths us = (us + 50) / 100

-- For each size of a chunk: the time that was measured, the calls, and the time of one call.
abbrev pub measured : List ℕ → List ℕ → List (List Value)
measured (chunk ∷ sizes) (us ∷ times) =
    (int chunk ∷ int us ∷ int (pages chunk) ∷ int (us / pages chunk) ∷ []) ∷ measured sizes times
measured _ _ = []

-- For each size of a chunk: its times in milliseconds, and how they spread.
abbrev pub spread_times : List ℕ → List ℕ → List ℕ → List ℕ → List Value → List (List Value)
spread_times (chunk ∷ sizes) (mean ∷ means) (median ∷ medians) (p90 ∷ p90s) (c ∷ cs) =
    (int chunk ∷ float (tenths mean) 1 ∷ float (tenths median) 1 ∷ float (tenths p90) 1 ∷ c ∷ [])
    ∷ spread_times sizes means medians p90s cs
spread_times _ _ _ _ _ = []

pub rows-measured : rows ≡ measured chunks total_us
unfolding page_count chunk_bytes requested
rows-measured = refl

pub rows_tail-spread_times : rows_tail ≡ spread_times chunks total_us median_us p90_us cv
rows_tail-spread_times = refl

-- The rows of the three tables. `str` is that of Python.
abbrev pub answers_grid : List (List String)
answers_grid = ("Prompt challenge" ∷ "Our answer" ∷ []) ∷ map pair_row questions

abbrev pub results_grid : (Value → String) → List (List String)
results_grid str =
    ("Chunk bytes" ∷ "Avg total us" ∷ "Avg chunks" ∷ "Avg RPC us" ∷ [])
    ∷ map (map str) (measured chunks total_us)

abbrev pub tail_grid : (Value → String) → List (List String)
tail_grid str =
    ("Chunk bytes" ∷ "Mean ms" ∷ "Median ms" ∷ "P90 ms" ∷ "CV" ∷ [])
    ∷ map (map str) (spread_times chunks total_us median_us p90_us cv)

-- The headings of the report.
abbrev pub outline : List String
outline =
    "Research Question" ∷ "Mini 1 Takeaways Applied" ∷ "Design" ∷ "Course and Lab Ideas Used"
    ∷ "Mini 2 Questions Answered" ∷ "Measurement Plan" ∷ "Two-Host Results"
    ∷ "Mean, Median, and Tail Behavior" ∷ "Fairness Result" ∷ "Failures Found and Fixed"
    ∷ "Conclusion" ∷ "Individual Contributions" ∷ "References" ∷ []
