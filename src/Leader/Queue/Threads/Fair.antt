-- ===== src/Leader/Queue/Threads/Fair.antt =====
-- The debts and tickets of clients that make one call at a time, as src/client/main.cpp does.
use mini2_anu_asim.Prelude.{
  ℕ, ◌+◌, ◌≤◌, ◌≡◌, ◌≢◌, refl, ap, sym, ◌∙◌, String, str_eq, true, false, some, [], ◌∷◌, arith,
  ◌==◌, if◌then◌else◌, eq_iff, Bool-cases, inl, inr,
}
use mini2_anu_asim.Prelude.Dict.{Dict, get, get-set, get-erase}
use mini2_anu_asim.Leader.Queue.{
  Ticket, before, FairQueue, new_ticket, debt_of, join, overtaken, may_enter, enter, release,
}
use mini2_anu_asim.Leader.Queue.Threads.{
  Phase, outside, waits, inside, Threads, at_rest, Label, arrives, passes, leaves, Step, arrive,
  pass, leave, Reach, here, next,
}

-- What a label counts for the passes of a thread.
abbrev pub hits : ℕ → Label → ℕ
hits j (arrives i) = 0
hits j (passes i) = if i == j then 1 else 0
hits j (leaves i) = 0

abbrev pub served_now : Phase → ℕ
served_now outside = 0
served_now (waits t) = 0
served_now inside = 1

overtaken-before :
    (cli wid : String) (me t : Ticket) (d : Dict Ticket)
    → str_eq wid cli ≡ false
    → get wid d ≡ some t
    → overtaken cli me d ≡ false
    → before t me ≡ false
unfolding overtaken get
overtaken-before cli wid me t [] h g o = cc
overtaken-before cli wid me t ((v, u) ∷ d) h g o =
    ground (arith, eq_iff v wid, overtaken-before cli wid me t d h)

before-debt : (t u : Ticket) → before t u ≡ false → u.debt ≤ t.debt
unfolding before
before-debt t u h = ground arith

may_enter-overtaken :
    (cli : String) (t : Ticket) (fq : FairQueue)
    → may_enter cli t fq ≡ true
    → overtaken cli t fq.waiting ≡ false
unfolding may_enter
may_enter-overtaken cli t fq h = ground arith

waits_injective : {t u : Ticket} → waits t ≡ waits u → t ≡ u
waits_injective h = cc

module _ (client : ℕ → String) (one_call : (i j : ℕ) → client i ≡ client j → i ≡ j) where
  same_client : (i j : ℕ) → (i == j) ≡ true → client i ≡ client j
  same_client i j e = let same : i ≡ j = ground arith in ap client same

  client_apart : (i j : ℕ) → i ≢ j → str_eq (client i) (client j) ≡ false
  client_apart i j h = elim (Bool-cases (str_eq (client i) (client j))) [
    | inl e ↦ absurd (h (one_call i j ((eq_iff (client i) (client j)).0 e)))
    | inr e ↦ e
  ]

  -- A waiting client has its entry, with its present debt.
  pub record IsOrderly (s : Threads) : Type 0 where
    pub listed :
        (i : ℕ) (t : Ticket) → s.phase i ≡ waits t → get (client i) s.queue.waiting ≡ some t
    pub aged : (i : ℕ) (t : Ticket) → s.phase i ≡ waits t → t.debt ≡ debt_of (client i) s.queue

  debt_of-release :
      (i j : ℕ) (fq : FairQueue)
      → debt_of (client j) (release (client i) fq)
        ≡ (if i == j then debt_of (client j) fq + 1 else debt_of (client j) fq)
  unfolding release
  debt_of-release i j fq = elim (Bool-cases (i == j)) [
    | inl e ↦
        let same = same_client i j e in
        let hit = (eq_iff (client i) (client j)).1 same in
        rw (get-set (client i) (client j) (debt_of (client i) fq + 1) fq.debts, hit, e)
          (ap (λ (c : String). debt_of c fq + 1) same)
    | inr e ↦
        let apart = client_apart i j (ground arith) in
        rw (get-set (client i) (client j) (debt_of (client i) fq + 1) fq.debts, apart, e) refl
  ]

  pub at_rest-IsOrderly : IsOrderly at_rest
  at_rest-IsOrderly = record { listed = λ i t h. absurd (cc); aged = λ i t h. absurd (cc) }

  Step-IsOrderly : {s u : Threads} {a : Label} → Step client s a u → IsOrderly s → IsOrderly u
  unfolding join enter release
  Step-IsOrderly {s} (arrive i e) x = record {
    listed = λ j t h. elim (Bool-cases (i == j)) [
      | inl q ↦
          let hit = (eq_iff (client i) (client j)).1 (same_client i j q) in
          rw (get-set (client i) (client j) (new_ticket (client i) s.queue) s.queue.waiting, hit)
            (ap some (waits_injective (rw q at h)))
      | inr q ↦
          let apart = client_apart i j (ground arith) in
          rw (get-set (client i) (client j) (new_ticket (client i) s.queue) s.queue.waiting, apart)
            (x.listed j t (rw q at h))
    ];
    aged = λ j t h. elim (Bool-cases (i == j)) [
      | inl q ↦
          ap (λ (v : Ticket). v.debt) (sym (waits_injective (rw q at h)))
          ∙ ap (λ c. debt_of c s.queue) (same_client i j q)
      | inr q ↦ x.aged j t (rw q at h)
    ];
  }
  Step-IsOrderly {s} (pass i t e may) x = record {
    listed = λ j t h. elim (Bool-cases (i == j)) [
      | inl q ↦ absurd (cc (rw q at h))
      | inr q ↦
          rw (get-erase (client i) (client j) s.queue.waiting, client_apart i j (ground arith))
            (x.listed j t (rw q at h))
    ];
    aged = λ j t h. elim (Bool-cases (i == j)) [
      | inl q ↦ absurd (cc (rw q at h))
      | inr q ↦ x.aged j t (rw q at h)
    ];
  }
  Step-IsOrderly {s} (leave i e) x = record {
    listed = λ j t h. x.listed j t (ground arith);
    aged = λ j t h. elim (Bool-cases (i == j)) [
      | inl q ↦ absurd (cc (rw q at h))
      | inr q ↦ x.aged j t (rw q at h) ∙ sym (rw q at (debt_of-release i j s.queue))
    ];
  }

  pub Reach-IsOrderly : {s u : Threads} → Reach client s u → IsOrderly s → IsOrderly u
  Reach-IsOrderly here x = x
  Reach-IsOrderly (next r st) x = Step-IsOrderly st (Reach-IsOrderly r x)

  -- The calls of a thread that were let in: those that are served, and the one that is inside.
  abbrev pub let_in : ℕ → Threads → ℕ
  let_in j s = debt_of (client j) s.queue + served_now (s.phase j)

  pub Step-let_in :
      {s u : Threads} {a : Label} (j : ℕ) → Step client s a u → let_in j u ≡ let_in j s + hits j a
  unfolding join enter
  Step-let_in {s} j (arrive i e) = ground arith
  Step-let_in {s} j (pass i t e may) = ground arith
  Step-let_in {s} j (leave i e) = ground (arith, debt_of-release i j s.queue)

  -- A thread that passes while another waits has no more debt.
  pub passes-debt :
      {s : Threads} {i j : ℕ} {t v : Ticket}
      → IsOrderly s
      → i ≢ j
      → s.phase i ≡ waits t
      → s.phase j ≡ waits v
      → may_enter (client j) v s.queue ≡ true
      → debt_of (client j) s.queue ≤ t.debt
  passes-debt {s} {i} {j} {t} {v} x apart h g may =
      let first =
        overtaken-before (client j) (client i) v t s.queue.waiting (client_apart i j apart)
          (x.listed i t h) (may_enter-overtaken (client j) v s.queue may) in
      omega (arith, before-debt t v first, x.aged j v g)
