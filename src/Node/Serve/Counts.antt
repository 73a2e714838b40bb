-- ===== src/Node/Serve/Counts.antt =====
-- What the last line of a node says of its calls, whatever its threads do.
use native.Mathlib.Nat.{div-mul-le_self, mul-div-le, mul-le-mul_left}
use mini2_anu_asim.Prelude.{
  false, ℕ, zero, suc, ◌+◌, ◌*◌, ◌/◌, ◌≤◌, ◌<◌, ◌≡◌, refl, String, Option, List, [], ◌∷◌, arith,
  map, leb, if◌then◌else◌, ok,
}
use mini2_anu_asim.Prelude.Floats.{Floats}
use mini2_anu_asim.Node.Config.{Config, Endpoint, port_of}
use mini2_anu_asim.Node.Payload.{Files}
use mini2_anu_asim.Node.Servicer.{Stub, Servicer, Outcome, reply, abort, init, average_us}
use mini2_anu_asim.Node.Counters.{Counters, Run}
use mini2_anu_asim.Node.Counters.Bounds.{never_overcounts}
use mini2_anu_asim.Node.Serve.{Call, outcome_of, Shutdown, serve}

-- What a call adds to a counter: nothing if it was aborted.
abbrev pub if_replied : ℕ → Outcome → ℕ
if_replied n (reply segments) = n
if_replied n (abort code message) = 0

-- The calls that end in a reply, and the time that these take.
unfoldable pub replies : Servicer → List Call → ℕ
replies s [] = 0
replies s (c ∷ cs) = if_replied 1 (outcome_of s c) + replies s cs

unfoldable pub busy : Servicer → List Call → ℕ
busy s [] = 0
busy s (c ∷ cs) = if_replied c.dt (outcome_of s c) + busy s cs

average_bound : (n total : ℕ) → n * (total / (if leb n 1 then 1 else n) / 1000 * 1000) ≤ total
average_bound zero total = omega arith
average_bound (suc zero) total = omega (arith, div-mul-le_self total 1000)
average_bound (suc (suc n)) total =
    let each = total / suc (suc n) in
    let whole : each / 1000 * 1000 ≤ each = div-mul-le_self each 1000 in
    let scaled : suc (suc n) * (each / 1000 * 1000) ≤ suc (suc n) * each =
      mul-le-mul_left (suc (suc n)) whole in
    let all : suc (suc n) * each ≤ total = mul-div-le total (suc (suc n)) in
    let many : leb (suc (suc n)) 1 ≡ false = ground arith in rw many (omega (arith, scaled, all))

-- The figures of the last line, against the calls.
pub record IsReported (s : Servicer) (calls : List Call) (out : Shutdown) : Type 0 where
  pub ended : out.outcomes ≡ map (outcome_of s) calls
  pub at_most : out.requests ≤ replies s calls
  pub some_requests : 0 < replies s calls → 0 < out.requests
  pub time : out.requests * (out.avg_us * 1000) ≤ busy s calls

module _ (fl : Floats) (fs : Files) (env : Option String) (channel : String → Endpoint → Stub) where
  -- Let the node have a port, let `__init__` return a servicer, and let the threads have run in any
  -- interleaving in which every call that ended in a reply has gone through both updates. Then `serve`
  -- runs to its end. Every call ends as it would have alone; the requests of the last line are at most
  -- the calls that ended in a reply, and not 0 if there was one; and the requests times the average
  -- are at most the time that these calls took.
  pub serve_counts :
      (node : String) (cfg : Config) (calls : List Call) (port : ℕ) (s : Servicer)
      (counters : Counters)
      → port_of node cfg ≡ ok port
      → init fl fs env channel node cfg ≡ ok s
      → Run counters (replies s calls) (busy s calls)
      → (out : Shutdown) × (serve fl fs env channel node cfg calls counters ≡ ok out)
        × (out.port ≡ port)
        × IsReported s calls out
  unfolding serve average_us
  serve_counts node cfg calls port s counters hp hs run =
      let (count, some_count, total) = never_overcounts run in
      rw (hp, hs, serve)
        (
          _,
          refl,
          refl,
          record {
            ended = refl;
            at_most = count;
            some_requests = some_count;
            time = omega (arith, total, average_bound counters.req_count counters.total_ns);
          },
        )
