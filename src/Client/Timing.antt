-- ===== src/Client/Timing.antt =====
-- The times that the client of src/client/main.cpp keeps of its calls, and what it prints of them.
-- A time is in nanoseconds. The sum has no bound here; a `long long` holds those of 292 years.
use native.Mathlib.Nat.{mul-le-mul_left, div-le_of_le-mul, le-div_iff_mul-le, mul_comm}
use mini2_anu_asim.Prelude.{
  ℕ, ◌+◌, ◌-◌, ◌*◌, ◌/◌, ◌^◌, ◌≤◌, ◌<◌, ◌≡◌, List, [], ◌∷◌, ltb, ◌==◌, if◌then◌else◌, false, arith,
  length, All,
}

-- `LLONG_MAX`.
abbrev pub llong_max : ℕ
llong_max = 2 ^ 63 - 1

-- `total_rpc_ns`, `min_rpc_ns`, `max_rpc_ns` and `call_count`.
pub record Timing : Type 0 where
  pub total_rpc_ns : ℕ
  pub min_rpc_ns : ℕ
  pub max_rpc_ns : ℕ
  pub call_count : ℕ

abbrev pub no_calls : Timing
no_calls = record { total_rpc_ns = 0; min_rpc_ns = llong_max; max_rpc_ns = 0; call_count = 0 }

-- What a call that took `dt` leaves.
unfoldable pub time_call : ℕ → Timing → Timing
time_call dt t = record {
  total_rpc_ns = t.total_rpc_ns + dt;
  min_rpc_ns = if ltb dt t.min_rpc_ns then dt else t.min_rpc_ns;
  max_rpc_ns = if ltb t.max_rpc_ns dt then dt else t.max_rpc_ns;
  call_count = t.call_count + 1;
}

unfoldable pub time_calls : List ℕ → Timing → Timing
unfolding time_call
time_calls [] t = t
time_calls (dt ∷ dts) t = time_calls dts (time_call dt t)

-- What the summary prints, in microseconds.
unfoldable pub avg_rpc_us : Timing → ℕ
avg_rpc_us t = if t.call_count == 0 then 0 else t.total_rpc_ns / t.call_count / 1000

abbrev pub min_rpc_us : Timing → ℕ
min_rpc_us t = t.min_rpc_ns / 1000

abbrev pub max_rpc_us : Timing → ℕ
max_rpc_us t = t.max_rpc_ns / 1000

-- The total lies between what the calls would take if all were as short as the shortest or as long as
-- the longest.
record IsTimed (t : Timing) : Type 0 where
  low : t.call_count * t.min_rpc_ns ≤ t.total_rpc_ns
  high : t.total_rpc_ns ≤ t.call_count * t.max_rpc_ns

time_call-IsTimed : (dt : ℕ) (t : Timing) → IsTimed t → IsTimed (time_call dt t)
unfolding time_call
time_call-IsTimed dt t h =
    let n = t.call_count in
    let least = (time_call dt t).min_rpc_ns in
    let most = (time_call dt t).max_rpc_ns in
    let shorter : least ≤ t.min_rpc_ns = ground arith in
    let short : least ≤ dt = ground arith in
    let longer : t.max_rpc_ns ≤ most = ground arith in
    let long : dt ≤ most = ground arith in
    let below : n * least ≤ n * t.min_rpc_ns = mul-le-mul_left n shorter in
    let above : n * t.max_rpc_ns ≤ n * most = mul-le-mul_left n longer in
    let low : (n + 1) * least ≤ t.total_rpc_ns + dt = omega (arith, h.low, below, short) in
    let high : t.total_rpc_ns + dt ≤ (n + 1) * most = omega (arith, h.high, above, long) in
    record { low = low; high = high }

time_calls-IsTimed : (dts : List ℕ) (t : Timing) → IsTimed t → IsTimed (time_calls dts t)
unfolding time_calls
time_calls-IsTimed [] t h = h
time_calls-IsTimed (dt ∷ dts) t h =
    time_calls-IsTimed dts (time_call dt t) (time_call-IsTimed dt t h)

call_count-time_calls :
    (dts : List ℕ) (t : Timing) → (time_calls dts t).call_count ≡ t.call_count + length dts
unfolding time_calls time_call
call_count-time_calls [] t = omega arith
call_count-time_calls (dt ∷ dts) t = omega (arith, call_count-time_calls dts (time_call dt t))

-- Neither bound moves away from the other calls.
time_calls-bounds :
    (dts : List ℕ) (t : Timing)
    → ((time_calls dts t).min_rpc_ns ≤ t.min_rpc_ns)
      × (t.max_rpc_ns ≤ (time_calls dts t).max_rpc_ns)
unfolding time_calls time_call
time_calls-bounds [] t = (omega arith, omega arith)
time_calls-bounds (dt ∷ dts) t =
    let (low, high) = time_calls-bounds dts (time_call dt t) in
    (ground (arith, low), ground (arith, high))

time_calls-All :
    (dts : List ℕ) (t : Timing)
    → All (λ dt. ((time_calls dts t).min_rpc_ns ≤ dt) × (dt ≤ (time_calls dts t).max_rpc_ns)) dts
unfolding time_calls time_call
time_calls-All [] t = tt
time_calls-All (dt ∷ dts) t =
    let (low, high) = time_calls-bounds dts (time_call dt t) in
    ((ground (arith, low), ground (arith, high)), time_calls-All dts (time_call dt t))

-- After at least one call the client prints an average that lies between the shortest and the longest
-- time that it prints, and no call was shorter or longer than these.
pub timing_bounds :
    (dts : List ℕ)
    → 0 < length dts
    → let t = time_calls dts no_calls in
      (t.call_count ≡ length dts)
      × (min_rpc_us t ≤ avg_rpc_us t)
      × (avg_rpc_us t ≤ max_rpc_us t)
      × All (λ dt. (t.min_rpc_ns ≤ dt) × (dt ≤ t.max_rpc_ns)) dts
unfolding avg_rpc_us
timing_bounds dts some_call =
    let t = time_calls dts no_calls in
    let h = time_calls-IsTimed dts no_calls (record { low = omega arith; high = omega arith }) in
    let calls : t.call_count ≡ length dts = omega (arith, call_count-time_calls dts no_calls) in
    let called : (t.call_count == 0) ≡ false = ground (arith, calls, some_call) in
    let mean = t.total_rpc_ns / t.call_count in
    let low : t.min_rpc_ns ≤ mean =
      (le-div_iff_mul-le (omega (arith, calls, some_call))).1
        (omega (arith, h.low, mul_comm t.call_count t.min_rpc_ns)) in
    let high : mean ≤ t.max_rpc_ns = div-le_of_le-mul t.call_count h.high in
    (
      calls,
      rw called (omega (arith, low)),
      rw called (omega (arith, high)),
      time_calls-All dts no_calls,
    )
