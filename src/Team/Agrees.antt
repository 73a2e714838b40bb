-- ===== src/Team/Agrees.antt =====
-- The `Fetch` of a C++ node and that of a Python node come to the same.
use mini2_anu_asim.Prelude.{
  ℕ, ◌+◌, ◌≡◌, refl, ap, String, ◌<>◌, Bool, true, false, none, some, List, ◌++◌, flatten, inl, inr,
}
use mini2_anu_asim.Node.Servicer.{Query, Segment, Status, internal, Stub, Servicer, fetch}
use mini2_anu_asim.Node.Servicer.Fetches.{
  Answers, done, next, Fails, stopped, failed, later, fetch_all_or_nothing,
}
use mini2_anu_asim.Team.{TeamService, first_worker_error, worker_segments, fetch_all}

module _ (active gone : ℕ → Bool) (q : Query) (here : (k : ℕ) → active k ≡ true)
    (stays : (k : ℕ) → gone k ≡ false) where
  first_worker_error-Answers :
      {k : ℕ} {stubs : List Stub} {answers : List (List Segment)}
      → Answers active q k stubs answers
      → (first_worker_error gone q k stubs ≡ none)
        × (worker_segments gone q k stubs ≡ flatten answers)
  unfolding first_worker_error worker_segments
  first_worker_error-Answers done = (refl, refl)
  first_worker_error-Answers (next {k} {more} a e w) =
      let (none_failed, joined) = first_worker_error-Answers w in
      rw (stays k, e, first_worker_error) (none_failed, ap (λ r. more ++ r) joined)

  first_worker_error-Fails :
      {k : ℕ} {stubs : List Stub} {code : Status} {message : String}
      → Fails active q k stubs code message
      → (error : String) × (first_worker_error gone q k stubs ≡ some error)
        × (code ≡ internal)
        × (message ≡ "child fetch failed: " <> error)
  unfolding first_worker_error
  first_worker_error-Fails (stopped {k} a) = absurd (cc (a, here k))
  first_worker_error-Fails (failed {k} {stub} {details} a e) =
      rw (stays k, e, first_worker_error) (stub.id <> ": " <> details, refl, refl, refl)
  first_worker_error-Fails (later {k} a e w) =
      rw (stays k, e, first_worker_error) (first_worker_error-Fails w)

  -- Let a Python node and a C++ node have the same payload, the same children and the same counters,
  -- and let a call be cancelled at neither. Then both end in the same way, with the same segments or
  -- with the same status and message, whichever children answer; and the counters are the same
  -- afterwards, if the call took the same time.
  pub fetch_all-fetch :
      (dt : ℕ) (s : Servicer) (t : TeamService)
      → t.payload ≡ s.payload
      → t.child_stubs ≡ s.child_stubs
      → t.req_count ≡ s.req_count
      → t.total_ns ≡ s.total_ns
      → ((fetch_all gone dt q t).0 ≡ (fetch active dt q s).0)
        × ((fetch_all gone dt q t).1.req_count ≡ (fetch active dt q s).1.req_count)
        × ((fetch_all gone dt q t).1.total_ns ≡ (fetch active dt q s).1.total_ns)
  unfolding fetch_all
  fetch_all-fetch dt s t payload stubs count total = elim (fetch_all_or_nothing active dt q s) [
    | inl (answers, w, e) ↦
        let (none_failed, joined) = first_worker_error-Answers w in
        rw (stubs, none_failed, stubs, joined, payload, e, fetch_all)
          (refl, ap (λ n. n + 1) count, ap (λ n. n + dt) total)
    | inr (code, message, w, e) ↦
        let (error, first, same_code, same_message) = first_worker_error-Fails w in
        rw (stubs, first, e, same_code, same_message, fetch_all) (refl, count, total)
  ]
