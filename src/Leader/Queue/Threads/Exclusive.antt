-- ===== src/Leader/Queue/Threads/Exclusive.antt =====
-- Mutual exclusion: one thread at a time is between `acquire` and `release`.
use mini2_anu_asim.Prelude.{ℕ, ◌≡◌, ◌≢◌, refl, String, true, false, arith}
use mini2_anu_asim.Leader.Queue.{Ticket, FairQueue, join, may_enter, enter, release}
use mini2_anu_asim.Leader.Queue.Threads.{
  inside, Threads, at_rest, Label, Step, arrive, pass, leave, Reach, here, next, escape,
}

pub may_enter-active :
    (cli : String) (t : Ticket) (fq : FairQueue) → may_enter cli t fq ≡ true → fq.active ≡ false
unfolding may_enter
may_enter-active cli t fq h = ground arith

pub record IsExclusive (s : Threads) : Type 0 where
  pub busy : (i : ℕ) → s.phase i ≡ inside → s.queue.active ≡ true
  pub apart : (i j : ℕ) → s.phase i ≡ inside → s.phase j ≡ inside → i ≡ j

pub at_rest-IsExclusive : IsExclusive at_rest
at_rest-IsExclusive = record { busy = λ i h. cc; apart = λ i j h g. cc }

-- No thread is inside, and the queue takes one to be.
pub record IsWedged (s : Threads) : Type 0 where
  pub taken : s.queue.active ≡ true
  pub nobody : (i : ℕ) → s.phase i ≢ inside

module _ {client : ℕ → String} where
  Step-IsExclusive : {s u : Threads} {a : Label} → Step client s a u → IsExclusive s → IsExclusive u
  unfolding join enter release
  Step-IsExclusive {s} (arrive i e) x = record {
    busy = λ j h. ground (arith, x.busy j);
    apart = λ j k h g. ground (arith, x.apart j k);
  }
  Step-IsExclusive {s} (pass i t e may) x =
      let free = may_enter-active (client i) t s.queue may in
      record { busy = λ j h. refl; apart = λ j k h g. ground (arith, x.busy j, x.busy k) }
  Step-IsExclusive {s} (leave i e) x = record {
    busy = λ j h. ground (arith, x.apart i j e);
    apart = λ j k h g. ground (arith, x.apart j k);
  }

  pub Reach-IsExclusive : {s u : Threads} → Reach client s u → IsExclusive s → IsExclusive u
  Reach-IsExclusive here x = x
  Reach-IsExclusive (next r st) x = Step-IsExclusive st (Reach-IsExclusive r x)

  -- However the threads are interleaved, two of them are never between `acquire` and `release` at the
  -- same time: the calls of `QueryOnce` go through the cache and the children one by one.
  pub mutual_exclusion :
      {s : Threads}
      → Reach client at_rest s
      → (i j : ℕ) → s.phase i ≡ inside
      → s.phase j ≡ inside
      → i ≡ j
  mutual_exclusion r i j h g = (Reach-IsExclusive r at_rest-IsExclusive).apart i j h g

  Step-IsWedged : {s u : Threads} {a : Label} → Step client s a u → IsWedged s → IsWedged u
  unfolding join enter release
  Step-IsWedged (arrive i e) w = record {
    taken = w.taken;
    nobody = λ j h. w.nobody j (ground arith);
  }
  Step-IsWedged {s} (pass i t e may) w =
      absurd (cc (w.taken, may_enter-active (client i) t s.queue may))
  Step-IsWedged (leave i e) w = absurd (w.nobody i e)

  pub Reach-IsWedged : {s u : Threads} → Reach client s u → IsWedged s → IsWedged u
  Reach-IsWedged here w = w
  Reach-IsWedged (next r st) w = Step-IsWedged st (Reach-IsWedged r w)

  -- If a thread that is between `acquire` and `release` leaves by an exception, without `release`, no
  -- thread gets through the queue ever after.
  pub escape_wedges :
      {s u : Threads} (i : ℕ)
      → Reach client at_rest s
      → s.phase i ≡ inside
      → Reach client (escape i s) u
      → (j : ℕ) → u.phase j ≢ inside
  escape_wedges {s} i r e later =
      let x = Reach-IsExclusive r at_rest-IsExclusive in
      let wedged : IsWedged (escape i s) = record {
        taken = x.busy i e;
        nobody = λ j h. ground (arith, x.apart i j e);
      } in
      (Reach-IsWedged later wedged).nobody
