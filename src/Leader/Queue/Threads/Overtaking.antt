-- ===== src/Leader/Queue/Threads/Overtaking.antt =====
-- Bounded overtaking, for clients that make one call at a time as src/client/main.cpp does.
use mini2_anu_asim.Prelude.{
  ℕ, ◌+◌, ◌-◌, ◌≤◌, ◌≡◌, ◌≢◌, refl, subst, String, true, arith, ◌==◌, Bool-cases, inl, inr, ◌⊎◌,
}
use mini2_anu_asim.Leader.Queue.{Ticket, debt_of, may_enter, enter}
use mini2_anu_asim.Leader.Queue.Threads.{
  waits, Threads, at_rest, Label, Step, arrive, pass, leave, Reach, next,
}
use mini2_anu_asim.Leader.Queue.Threads.Fair.{
  hits, IsOrderly, Reach-IsOrderly, at_rest-IsOrderly, let_in, Step-let_in, passes-debt,
}

-- The thread `i` waits with the ticket `t` from one state to another, and the thread `j` passes `n`
-- times in between.
pub data Span (client : ℕ → String) (i j : ℕ) (t : Ticket) (s : Threads)
    : Threads → ℕ → Type 0 where
  begin : s.phase i ≡ waits t → Span client i j t s s 0
  more :
      {u v : Threads} {a : Label} {n m : ℕ}
      → Span client i j t s u n
      → Step client u a v
      → v.phase i ≡ waits t
      → m ≡ n + hits j a
      → Span client i j t s v m

module _ (client : ℕ → String) (one_call : (i j : ℕ) → client i ≡ client j → i ≡ j) where
  Span-waits :
      {s : Threads} {i j : ℕ} {t : Ticket} {u : Threads} {n : ℕ}
      → Span client i j t s u n
      → u.phase i ≡ waits t
  Span-waits (begin h) = h
  Span-waits (more sp st h e) = h

  Span-start :
      {s : Threads} {i j : ℕ} {t : Ticket} {u : Threads} {n : ℕ}
      → Span client i j t s u n
      → s.phase i ≡ waits t
  Span-start (begin h) = h
  Span-start (more sp st h e) = Span-start sp

  Span-Reach :
      {r s : Threads} {i j : ℕ} {t : Ticket} {u : Threads} {n : ℕ}
      → Reach client r s
      → Span client i j t s u n
      → Reach client r u
  Span-Reach r (begin h) = r
  Span-Reach r (more sp st h e) = next (Span-Reach r sp) st

  Span-let_in :
      {s : Threads} {i j : ℕ} {t : Ticket} {u : Threads} {n : ℕ}
      → Span client i j t s u n
      → let_in client one_call j u ≡ let_in client one_call j s + n
  Span-let_in (begin h) = omega arith
  Span-let_in {j = j} (more sp st h e) =
      omega (arith, Span-let_in sp, Step-let_in client one_call j st)

  -- A pass of the thread `j` brings it to one call more than the debt of the waiting thread at most.
  Step-bound :
      {s u : Threads} {a : Label} {i j : ℕ} {t : Ticket}
      → IsOrderly client one_call s
      → i ≢ j
      → s.phase i ≡ waits t
      → Step client s a u
      → (hits j a ≡ 0) ⊎ (let_in client one_call j u ≤ t.debt + 1)
  unfolding enter
  Step-bound x apart h (arrive k e) = inl refl
  Step-bound x apart h (leave k e) = inl refl
  Step-bound {s} {j = j} x apart h (pass k v e may) = elim (Bool-cases (k == j)) [
    | inl q ↦
        let same : k ≡ j = ground arith in
        let low =
          passes-debt client one_call x apart h (subst (λ m. s.phase m ≡ waits v) same e)
            (subst (λ m. may_enter (client m) v s.queue ≡ true) same may) in
        inr (ground (arith, low))
    | inr q ↦ inl (rw q refl)
  ]

  Span-bound :
      {s : Threads} {i j : ℕ} {t : Ticket} {u : Threads} {n : ℕ}
      → Reach client at_rest s
      → i ≢ j
      → Span client i j t s u n
      → (n ≡ 0) ⊎ (let_in client one_call j u ≤ t.debt + 1)
  Span-bound r apart (begin h) = inl refl
  Span-bound {j = j} r apart (more sp st h e) =
      let x =
        Reach-IsOrderly client one_call (Span-Reach r sp) (at_rest-IsOrderly client one_call) in
      elim (Step-bound x apart (Span-waits sp) st) [
        | inr high ↦ inr high
        | inl none_here ↦ elim (Span-bound r apart sp) [
          | inl z ↦ inl (omega arith)
          | inr low ↦ inr (omega (arith, Step-let_in client one_call j st))
        ]
      ]

  -- Let every thread's calls be those of a client of its own. While a client waits, another client is
  -- let in at most as often as the calls that were served to the waiting client exceed those that
  -- were served to the other one, and once more.
  pub bounded_overtaking :
      {s u : Threads} {t : Ticket} (i j n : ℕ)
      → Reach client at_rest s
      → i ≢ j
      → Span client i j t s u n
      → n ≤ debt_of (client i) s.queue + 1 - debt_of (client j) s.queue
  bounded_overtaking {s} {u} {t} i j n r apart sp =
      let start = Span-start sp in
      let x = Reach-IsOrderly client one_call r (at_rest-IsOrderly client one_call) in
      elim (Span-bound r apart sp) [
        | inl z ↦ omega arith
        | inr low ↦ omega (arith, Span-let_in sp, x.aged i t start)
      ]
