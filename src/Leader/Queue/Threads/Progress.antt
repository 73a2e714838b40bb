-- ===== src/Leader/Queue/Threads/Progress.antt =====
-- No deadlock: while threads wait and none is inside, one of them may pass.
use mini2_anu_asim.Prelude.{
  ℕ, ◌≡◌, ◌≢◌, refl, ap, sym, subst, ◌∙◌, String, str_eq, true, false, [], ◌∷◌, arith,
  if◌then◌else◌, All, eq_iff, Bool-cases, inl, inr,
}
use mini2_anu_asim.Prelude.Dict.{Dict, All-set, All-erase}
use mini2_anu_asim.Leader.Queue.{
  Ticket, before, FairQueue, new_ticket, join, overtaken, may_enter, enter, release,
}
use mini2_anu_asim.Leader.Queue.Threads.{
  Phase, outside, waits, inside, Threads, update, at_rest, Label, Step, arrive, pass, leave, Reach,
  here, next,
}

-- The entry with the smallest ticket.
least : String × Ticket → Dict Ticket → String × Ticket
least (w, t) [] = (w, t)
least (w, t) ((v, u) ∷ d) =
    let ahead = least (v, u) d in let kept = least (w, t) d in if before u t then ahead else kept

least-All {ℓ} :
    (P : String × Ticket → Type ℓ) (w : String) (t : Ticket) (d : Dict Ticket)
    → P (w, t)
    → All P d
    → P (least (w, t) d)
unfolding least
least-All P w t [] h hs = h
least-All P w t ((v, u) ∷ d) h hs = elim (Bool-cases (before u t)) [
  | inl e ↦ rw e (least-All P v u d hs.0 hs.1)
  | inr e ↦ rw e (least-All P w t d h hs.1)
]

NotBefore : Ticket → String × Ticket → Type 0
NotBefore t (v, u) = before u t ≡ false

before_trans : (a b c : Ticket) → before b a ≡ false → before c b ≡ false → before c a ≡ false
unfolding before
before_trans a b c h k = ground arith

before_asymm : (a b : Ticket) → before a b ≡ true → before b a ≡ false
unfolding before
before_asymm a b h = ground arith

before_irrefl : (a : Ticket) → before a a ≡ false
unfolding before
before_irrefl a = ground arith

least-le_start : (w : String) (t : Ticket) (d : Dict Ticket) → before t (least (w, t) d).1 ≡ false
unfolding least
least-le_start w t [] = before_irrefl t
least-le_start w t ((v, u) ∷ d) = elim (Bool-cases (before u t)) [
  | inl e ↦ rw e (before_trans (least (v, u) d).1 u t (least-le_start v u d) (before_asymm u t e))
  | inr e ↦ rw e (least-le_start w t d)
]

least_step :
    (w v : String) (t u : Ticket) (d : Dict Ticket)
    → least (w, t) ((v, u) ∷ d) ≡ (if before u t then least (v, u) d else least (w, t) d)
unfolding least
least_step w v t u d = refl

least-NotBefore : (w : String) (t : Ticket) (d : Dict Ticket) → All (NotBefore (least (w, t) d).1) d
unfolding NotBefore
least-NotBefore w t [] = tt
least-NotBefore w t ((v, u) ∷ d) = elim (Bool-cases (before u t)) [
  | inl e ↦
      let same : least (w, t) ((v, u) ∷ d) ≡ least (v, u) d = rw e at (least_step w v t u d) in
      subst (λ x. All (NotBefore x.1) ((v, u) ∷ d)) (sym same)
        (least-le_start v u d, least-NotBefore v u d)
  | inr e ↦
      let same : least (w, t) ((v, u) ∷ d) ≡ least (w, t) d = rw e at (least_step w v t u d) in
      subst (λ x. All (NotBefore x.1) ((v, u) ∷ d)) (sym same)
        (before_trans (least (w, t) d).1 t u (least-le_start w t d) e, least-NotBefore w t d)
]

overtaken-NotBefore :
    (cli : String) (t : Ticket) (d : Dict Ticket) → All (NotBefore t) d → overtaken cli t d ≡ false
unfolding overtaken NotBefore
overtaken-NotBefore cli t [] h = refl
overtaken-NotBefore cli t ((v, u) ∷ d) h = ground (arith, overtaken-NotBefore cli t d h.1)

may_enter_of :
    (cli : String) (t : Ticket) (fq : FairQueue)
    → fq.active ≡ false
    → overtaken cli t fq.waiting ≡ false
    → may_enter cli t fq ≡ true
unfolding may_enter
may_enter_of cli t fq h k = ground arith

update_same : (f : ℕ → Phase) (i : ℕ) (p : Phase) → update f i p i ≡ p
update_same f i p = ground arith

update_other : (f : ℕ → Phase) (i : ℕ) (p : Phase) (k : ℕ) → i ≢ k → update f i p k ≡ f k
update_other f i p k h = ground arith

module _ (client : ℕ → String) where
  other_client : (i k : ℕ) (wid : String) → client k ≡ wid → str_eq wid (client i) ≡ false → i ≢ k
  other_client i k wid c apart same =
      let hit = (eq_iff wid (client i)).1 (sym c ∙ ap client (sym same)) in cc

  -- The entry of a client that waits belongs to a thread of this client.
  abbrev pub Owned : (ℕ → Phase) → String × Ticket → Type 0
  Owned phase (wid, t) = (i : ℕ) × (client i ≡ wid) × (phase i ≡ waits t)

  pub record IsLive (s : Threads) : Type 0 where
    pub owners : All (Owned s.phase) s.queue.waiting
    pub held : s.queue.active ≡ true → (i : ℕ) × (s.phase i ≡ inside)

  Owned-update :
      (phase : ℕ → Phase) (i : ℕ) (p : Phase) (entry : String × Ticket)
      → ((t : Ticket) → phase i ≢ waits t)
      → Owned phase entry
      → Owned (update phase i p) entry
  Owned-update phase i p (wid, t) h (k, c, e) = (k, c, ground (arith, h t))

  All-Owned-update :
      (phase : ℕ → Phase) (i : ℕ) (p : Phase) (d : Dict Ticket)
      → ((t : Ticket) → phase i ≢ waits t)
      → All (Owned phase) d
      → All (Owned (update phase i p)) d
  All-Owned-update phase i p [] h o = tt
  All-Owned-update phase i p (x ∷ d) h o =
      (Owned-update phase i p x h o.0, All-Owned-update phase i p d h o.1)

  Step-IsLive : {s u : Threads} {a : Label} → Step client s a u → IsLive s → IsLive u
  unfolding join enter release
  Step-IsLive {s} (arrive i e) x = record {
    owners =
        All-set (Owned (update s.phase i (waits (new_ticket (client i) s.queue)))) (client i)
          (new_ticket (client i) s.queue) s.queue.waiting
          (i, refl, update_same s.phase i (waits (new_ticket (client i) s.queue)))
          (All-Owned-update s.phase i _ s.queue.waiting (λ t h. cc) x.owners);
    held = λ h. let (k, g) = x.held h in (k, ground arith);
  }
  Step-IsLive {s} (pass i t e may) x = record {
    owners =
        All-erase (Owned s.phase) (Owned (update s.phase i inside)) (client i) s.queue.waiting
          (λ wid v apart (k, c, g).
            (k, c, (update_other s.phase i inside k (other_client i k wid c apart) ∙ g)))
          x.owners;
    held = λ h. (i, update_same s.phase i inside);
  }
  Step-IsLive {s} (leave i e) x = record {
    owners = All-Owned-update s.phase i outside s.queue.waiting (λ t h. cc) x.owners;
    held = λ h. absurd (cc);
  }

  pub Reach-IsLive : {s u : Threads} → Reach client s u → IsLive s → IsLive u
  Reach-IsLive here x = x
  Reach-IsLive (next r st) x = Step-IsLive st (Reach-IsLive r x)

  owner_passes :
      (s : Threads) (d : Dict Ticket) (x : String × Ticket)
      → Owned s.phase x
      → All (NotBefore x.1) d
      → (k : ℕ) × (v : Ticket) × (s.phase k ≡ waits v) × (overtaken (client k) v d ≡ false)
  owner_passes s d (wid, v) (k, c, e) h = (k, v, e, overtaken-NotBefore (client k) v d h)

  -- A thread that no entry keeps from passing.
  passes_among :
      (s : Threads) (d : Dict Ticket) (i : ℕ) (t : Ticket)
      → s.phase i ≡ waits t
      → All (Owned s.phase) d
      → (k : ℕ) × (v : Ticket) × (s.phase k ≡ waits v) × (overtaken (client k) v d ≡ false)
  unfolding overtaken NotBefore
  passes_among s [] i t e o = (i, t, e, refl)
  passes_among s ((w, u) ∷ d) i t e o =
      owner_passes s ((w, u) ∷ d) (least (w, u) d) (least-All (Owned s.phase) w u d o.0 o.1)
        (least-le_start w u d, least-NotBefore w u d)

  -- If no thread is between `acquire` and `release`, and some thread waits, then some waiting thread
  -- may pass: the queue does not deadlock.
  pub no_deadlock :
      {s : Threads}
      → Reach client at_rest s
      → ((j : ℕ) → s.phase j ≢ inside)
      → (i : ℕ) (t : Ticket) → s.phase i ≡ waits t
      → (k : ℕ) × (v : Ticket) × (s.phase k ≡ waits v) × (may_enter (client k) v s.queue ≡ true)
  no_deadlock {s} r empty i t e =
      let x = Reach-IsLive r (record { owners = tt; held = λ h. absurd (cc) }) in
      let (k, v, g, first) = passes_among s s.queue.waiting i t e x.owners in
      let free : s.queue.active ≡ false = elim (Bool-cases s.queue.active) [
        | inl taken ↦ let (j, h) = x.held taken in absurd (empty j h)
        | inr free ↦ free
      ] in
      (k, v, g, may_enter_of (client k) v s.queue free first)
