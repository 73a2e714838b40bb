-- ===== src/Leader/Queue.antt =====
-- `FairQueue`: the operations that a thread does while it holds the mutex. The counters are C++ `int`s
-- there, and unbounded here: they count calls, and the ranges are not reached.
pub mod Threads
use mini2_anu_asim.Prelude.{
  ℕ, suc, ◌+◌, String, str_eq, Bool, true, false, not, ◌&&◌, Option, none, some, ◌||◌, List, [],
  ◌∷◌, ltb, ◌==◌, if◌then◌else◌,
}
use mini2_anu_asim.Prelude.Dict.{Dict, get, set, erase}
use mini2_anu_asim.Node.Config.{or_default}

pub record Ticket : Type 0 where
  pub debt : ℕ
  pub seq : ℕ

-- `operator<`.
unfoldable pub before : Ticket → Ticket → Bool
before a b = if a.debt == b.debt then ltb a.seq b.seq else ltb a.debt b.debt

pub record FairQueue : Type 0 where
  pub active : Bool
  pub seq : ℕ
  pub waiting : Dict Ticket
  pub debts : Dict ℕ

abbrev pub idle_queue : FairQueue
idle_queue = record { active = false; seq = 0; waiting = []; debts = [] }

-- `debt(cli)`: the calls of the client that were served.
abbrev pub debt_of : String → FairQueue → ℕ
debt_of cli fq = or_default 0 (get cli fq.debts)

-- The ticket of a client that comes.
abbrev pub new_ticket : String → FairQueue → Ticket
new_ticket cli fq = record { debt = debt_of cli fq; seq = fq.seq + 1 }

-- `acquire` up to the wait.
unfoldable pub join : String → FairQueue → FairQueue
join cli fq = record fq { seq = fq.seq + 1; waiting = set cli (new_ticket cli fq) fq.waiting }

-- Whether another client waits with a smaller ticket.
unfoldable pub overtaken : String → Ticket → Dict Ticket → Bool
unfolding before
overtaken cli me [] = false
overtaken cli me ((wid, wt) ∷ rest) =
    (not (str_eq wid cli) && before wt me) || overtaken cli me rest

-- The condition of the wait.
unfoldable pub may_enter : String → Ticket → FairQueue → Bool
unfolding overtaken
may_enter cli me fq = not fq.active && not (overtaken cli me fq.waiting)

-- `acquire` behind the wait.
unfoldable pub enter : String → FairQueue → FairQueue
enter cli fq = record fq { waiting = erase cli fq.waiting; active = true }

-- `acquire` of a thread while no other thread comes or goes: it is let in at once, or it waits.
unfoldable pub acquire : String → FairQueue → Option FairQueue
unfolding join may_enter enter
acquire cli fq =
    let joined = join cli fq in
    if may_enter cli (new_ticket cli fq) joined then some (enter cli joined) else none

unfoldable pub release : String → FairQueue → FairQueue
release cli fq = record fq { debts = set cli (debt_of cli fq + 1) fq.debts; active = false }
