-- ===== src/Tests/Queueing.antt =====
-- Two clients at the leader's queue.
use mini2_anu_asim.Prelude.{
  ℕ, zero, suc, ◌≤◌, ◌-◌, ◌+◌, ◌≡◌, ◌≢◌, refl, ap, sym, ◌∙◌, String, true, arith, length,
}
use mini2_anu_asim.Prelude.Text.{codes}
use mini2_anu_asim.Prelude.Dict.{get, set}
use mini2_anu_asim.Leader.Queue.{
  Ticket, new_ticket, before, debt_of, join, overtaken, may_enter, enter, release,
}
use mini2_anu_asim.Leader.Queue.Threads.{
  update, passes, outside, waits, inside, Threads, at_rest, Step, arrive, pass, leave, Reach, here,
  next, escape,
}
use mini2_anu_asim.Leader.Queue.Threads.Exclusive.{mutual_exclusion, escape_wedges}
use mini2_anu_asim.Leader.Queue.Threads.Progress.{no_deadlock}
use mini2_anu_asim.Leader.Queue.Threads.Overtaking.{Span, begin, more, bounded_overtaking}

-- Names of different lengths.
abbrev named : ℕ → String
named zero = ""
named (suc i) = String.◌∷◌ "c" (named i)

length-named : (i : ℕ) → length (codes (named i)) ≡ i
length-named zero = refl
length-named (suc i) = ap suc (length-named i)

own_name : (i j : ℕ) → named i ≡ named j → i ≡ j
own_name i j h = sym (length-named i) ∙ ap (λ s. length (codes s)) h ∙ length-named j

-- The states behind the steps of a thread.
abbrev arrived : ℕ → Threads → Threads
arrived i s = record {
  queue = join (named i) s.queue;
  phase = update s.phase i (waits (new_ticket (named i) s.queue));
}

abbrev passed : ℕ → Threads → Threads
passed i s = record { queue = enter (named i) s.queue; phase = update s.phase i inside }

abbrev left_queue : ℕ → Threads → Threads
left_queue i s = record { queue = release (named i) s.queue; phase = update s.phase i outside }

-- Both clients wait, and then the first is let in.
abbrev both : Threads
both = arrived 1 (arrived 0 at_rest)

both-Reach : Reach named at_rest both
both-Reach = next (next here (arrive 0 refl)) (arrive 1 refl)

abbrev first : Threads
first = passed 0 both

first-Step : Step named both (passes 0) first
unfolding may_enter join overtaken before get set
first-Step = pass 0 _ refl refl

nobody : (j : ℕ) → both.phase j ≢ inside
nobody j h = ground arith

mutual_exclusion_example : ◌≡◌ {A = ℕ} 0 0
mutual_exclusion_example = mutual_exclusion (next both-Reach first-Step) 0 0 refl refl

no_deadlock_example :
    (k : ℕ) × (v : Ticket) × (both.phase k ≡ waits v) × (may_enter (named k) v both.queue ≡ true)
no_deadlock_example = no_deadlock named both-Reach nobody 1 _ refl

-- The first client passes, leaves, and comes again while the second waits.
while_second_waits :
    Span named 1 0 (record { debt = 0; seq = 2 }) both (arrived 0 (left_queue 0 first)) 1
unfolding join get set
while_second_waits =
    more (more (more (begin refl) first-Step refl refl) (leave 0 refl) refl refl) (arrive 0 refl)
      refl refl

bounded_overtaking_example : 1 ≤ debt_of (named 1) both.queue + 1 - debt_of (named 0) both.queue
bounded_overtaking_example =
    bounded_overtaking named own_name 1 0 1 both-Reach (λ h. omega arith) while_second_waits

-- The first client's thread escapes; the second goes on waiting, and a third comes.
escape_wedges_example : (arrived 2 (escape 0 first)).phase 1 ≢ inside
escape_wedges_example =
    escape_wedges {client = named} 0 (next both-Reach first-Step) refl (next here (arrive 2 refl)) 1
