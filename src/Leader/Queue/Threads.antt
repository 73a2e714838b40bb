-- ===== src/Leader/Queue/Threads.antt =====
-- Threads of `QueryOnce` that go through a `FairQueue`. Each step is what a thread does while it holds
-- the mutex. A thread whose call has ended may begin another.
pub mod Exclusive
pub mod Progress
pub mod Fair
pub mod Overtaking
use mini2_anu_asim.Prelude.{ℕ, ◌≡◌, String, Bool, true, ◌==◌, if◌then◌else◌}
use mini2_anu_asim.Leader.Queue.{
  Ticket, FairQueue, idle_queue, new_ticket, join, may_enter, enter, release,
}

-- Where a thread is: outside of the queue, in the wait of `acquire`, or between `acquire` and
-- `release`.
pub data Phase : Type 0 where
  outside : Phase
  waits : Ticket → Phase
  inside : Phase

pub record Threads : Type 0 where
  pub queue : FairQueue
  pub phase : ℕ → Phase

abbrev pub update : (ℕ → Phase) → ℕ → Phase → ℕ → Phase
update f i p j = if i == j then p else f j

abbrev pub at_rest : Threads
at_rest = record { queue = idle_queue; phase = λ _. outside }

-- The thread of a step and what it does.
pub data Label : Type 0 where
  arrives : ℕ → Label
  passes : ℕ → Label
  leaves : ℕ → Label

-- `client` names the client of each thread's calls.
pub data Step (client : ℕ → String) (s : Threads) : Label → Threads → Type 0 where
  arrive :
      (i : ℕ)
      → s.phase i ≡ outside
      → Step client s (arrives i) (record {
        queue = join (client i) s.queue;
        phase = update s.phase i (waits (new_ticket (client i) s.queue));
      })
  pass :
      (i : ℕ) (t : Ticket)
      → s.phase i ≡ waits t
      → may_enter (client i) t s.queue ≡ true
      → Step client s
          (passes i)
          (record { queue = enter (client i) s.queue; phase = update s.phase i inside })
  leave :
      (i : ℕ)
      → s.phase i ≡ inside
      → Step client s
          (leaves i)
          (record { queue = release (client i) s.queue; phase = update s.phase i outside })

pub data Reach (client : ℕ → String) (s : Threads) : Threads → Type 0 where
  here : Reach client s s
  next : {t u : Threads} {a : Label} → Reach client s t → Step client t a u → Reach client s u

-- A thread leaves `QueryOnce` by an exception, without `release`.
abbrev pub escape : ℕ → Threads → Threads
escape i s = record s { phase = update s.phase i outside }
