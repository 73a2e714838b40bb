-- ===== src/Leader/Handler/Ready.antt =====
-- Calls that come one behind the other: each is let in, as long as their offsets are in range.
use mini2_anu_asim.Prelude.{
  ℕ, ◌+◌, ◌<◌, ◌≡◌, refl, ap, ◌∙◌, String, str_eq, eq_iff, Bool, true, false, none, some, List, [],
  arith, length,
}
use mini2_anu_asim.Prelude.Int.{pos, negsuc}
use mini2_anu_asim.Prelude.Dict.{set, erase}
use mini2_anu_asim.Node.Servicer.{Query}
use mini2_anu_asim.Leader.Pages.{max_chunk_bytes, int_bound}
use mini2_anu_asim.Leader.Queue.{FairQueue, join, overtaken, may_enter, enter, acquire, release}
use mini2_anu_asim.Leader.Handler.{Leader, Ending, uncaught, query_once, call_once, reap}
use mini2_anu_asim.Leader.Handler.Coherent.{
  IsCoherent, fetch_or_cache-IsCoherent, query_once-IsCoherent, reap-IsCoherent,
}
use mini2_anu_asim.Leader.Handler.Closing.{query_once_closes, negative_offset_escapes}

-- The queue of a client that comes to an empty queue and is let in.
abbrev pub let_in : String → FairQueue → FairQueue
let_in cli fq = record fq { seq = fq.seq + 1; waiting = []; active = true }

acquire_empty :
    (cli : String) (fq : FairQueue)
    → fq.active ≡ false
    → fq.waiting ≡ []
    → acquire cli fq ≡ some (let_in cli fq)
unfolding acquire join may_enter overtaken enter set erase
acquire_empty cli fq h e =
    let same : str_eq cli cli ≡ true = (eq_iff cli cli).1 refl in rw (e, h, same) refl

acquire_active : (cli : String) (fq : FairQueue) → fq.active ≡ true → acquire cli fq ≡ none
unfolding acquire join may_enter
acquire_active cli fq h = rw h refl

-- The offset of a query is not negative, and a megabyte below the range of `int`.
abbrev pub IsInRange : Query → Type 0
IsInRange q = (start : ℕ) × (q.offset ≡ pos start) × (start + max_chunk_bytes < int_bound)

module _ (full : List ℕ) where
  -- Nobody is in the queue, and the cache holds what the children have.
  pub record IsReady (l : Leader) : Type 0 where
    pub coherent : IsCoherent full l
    pub free : l.queue.active ≡ false
    pub empty : l.queue.waiting ≡ []

  -- The leader behind `acquire`.
  abbrev pub entered : Query → Leader → Leader
  entered q l = record l { queue = let_in q.client_id l.queue }

  pub entered-IsCoherent : (q : Query) (l : Leader) → IsReady l → IsCoherent full (entered q l)
  entered-IsCoherent q l r = record { gathers = r.coherent.gathers; entries = r.coherent.entries }

  pub call_once-entered :
      (gone : Bool) (now dt : ℕ) (q : Query) (l : Leader)
      → IsReady l
      → call_once gone now dt q l ≡ some (query_once gone now dt q (entered q l))
  unfolding call_once
  call_once-entered gone now dt q l r =
      rw (acquire_empty q.client_id l.queue r.free r.empty, call_once) refl

  -- A call with an offset in range leaves the leader ready.
  pub query_once-IsReady :
      (gone : Bool) (now dt : ℕ) (q : Query) (l : Leader)
      → length full < int_bound
      → IsInRange q
      → IsReady l
      → IsReady (query_once gone now dt q (entered q l)).1
  unfolding release
  query_once-IsReady gone now dt q l small (start, o, k) r =
      let c = entered-IsCoherent q l r in
      let (_, gathered, _, _) = fetch_or_cache-IsCoherent full now q (entered q l) c in
      let closed =
        query_once_closes now dt q (entered q l) gone start o k
          (λ bs e. let same : bs ≡ full = cc in omega (arith, ap length same)) in
      record {
        coherent = query_once-IsCoherent full gone now dt q (entered q l) c;
        free = ap (λ (fq : FairQueue). fq.active) closed;
        empty = ap (λ (fq : FairQueue). fq.waiting) closed;
      }

  pub reap-IsReady : (now : ℕ) (l : Leader) → IsReady l → IsReady (reap now l)
  unfolding reap
  reap-IsReady now l r = record {
    coherent = reap-IsCoherent full now l r.coherent;
    free = r.free;
    empty = r.empty;
  }

  -- At a negative offset, where nobody is in the queue, the children give one payload to every query,
  -- the cache holds nothing else, and the payload is within the range of `int`: a call that is not
  -- cancelled leaves by an exception, and no call that comes behind it is let in.
  pub negative_offset_blocks :
      (now dt n : ℕ) (q : Query) (l : Leader)
      → length full < int_bound
      → q.offset ≡ negsuc n
      → IsReady l
      → (l' : Leader) × (call_once false now dt q l ≡ some (uncaught, l'))
        × ((gone : Bool) (now' dt' : ℕ) (q' : Query) → call_once gone now' dt' q' l' ≡ none)
  unfolding call_once
  negative_offset_blocks now dt n q l small o r =
      let (_, gathered, _, _) =
        fetch_or_cache-IsCoherent full now q (entered q l) (entered-IsCoherent q l r) in
      let (ends, kept) =
        negative_offset_escapes now dt q (entered q l) n full o (ap (λ p. p.0) gathered) small in
      let out = query_once false now dt q (entered q l) in
      (
        out.1,
        call_once-entered false now dt q l r ∙ ap (λ (e : Ending). some (e, out.1)) ends,
        λ gone now' dt' q'.
            rw
              (
                acquire_active q'.client_id out.1.queue (ap (λ (fq : FairQueue). fq.active) kept),
                call_once,
              )
              refl,
      )
