-- ===== src/Tests/Samples.antt =====
-- Inputs of the tests: numbers in the place of floats, a few rows, a configuration.
use mini2_anu_asim.Prelude.{
  ℕ, ◌^◌, ◌<◌, ◌≡◌, str_eq, Option, none, some, String, List, [], ◌∷◌, arith, ltb, if◌then◌else◌,
  length,
}
use mini2_anu_asim.Prelude.Dict.{Dict}
use mini2_anu_asim.Prelude.Text.{codes}
use mini2_anu_asim.Prelude.Floats.{Floats}
use mini2_anu_asim.Shards.Fields.{Row}
use mini2_anu_asim.Node.Config.{Config, mapping}

abbrev pub small : ℕ → Option ℕ
small x = if ltb x (2 ^ 32) then some x else none

pub small_word : (x w : ℕ) → small x ≡ some w → w < 2 ^ 32
small_word x w h = ground arith

-- Floats are numbers here, and a text stands for its length.
abbrev pub counting : Floats
counting = record {
  F = ℕ;
  parse = λ s. some (length s);
  of_int = λ i. 0;
  decimal = λ m k. m;
  add = λ a b. a;
  sub = λ a b. a;
  mul = λ a b. a;
  neg = λ a. a;
  to_f32 = small;
  f32_word = small_word;
}

abbrev pub request : Row
request column =
    if str_eq column "Unique Key"
    then some (codes "42")
    else if str_eq column "Created Date"
    then some (codes "01/02/2021 03:04:05 AM")
    else if str_eq column "Incident Zip"
    then some (codes "NY 10001-1234")
    else if str_eq column "Status"
    then some (codes " Closed ")
    else if str_eq column "Borough"
    then some (codes "QUEENS")
    else none

-- A row whose key is no integer.
abbrev pub keyless : Row
keyless column = if str_eq column "Unique Key" then some (codes "n/a") else none

abbrev pub overlay : Config
overlay = record {
  children = none;
  overlay = some (("A" ∷ "B" ∷ []) ∷ ("B" ∷ "C" ∷ []) ∷ ("A" ∷ "C" ∷ []) ∷ ("D" ∷ "E" ∷ []) ∷ []);
  roles = some (("B", mapping (some "team")) ∷ ("A", mapping (some "leader")) ∷ []);
  hosts = some (("host1", record { addr = some "10.0.0.1"; procs = some ("A" ∷ "B" ∷ []) }) ∷ []);
  ports = some (("A", 50051) ∷ ("B", 50052) ∷ ("C", 50053) ∷ []);
}

-- The explicit tree of config/nodes.yaml.
abbrev pub explicit : Dict (Option (List String))
explicit =
    ("A", some ("B" ∷ "H" ∷ "G" ∷ "I" ∷ []))
    ∷ ("B", some ("C" ∷ "D" ∷ "E" ∷ []))
    ∷ ("E", some ("F" ∷ []))
    ∷ []

-- config/nodes.yaml.
abbrev pub cluster : Config
cluster = record {
  children = some explicit;
  overlay = some (
      ("A" ∷ "B" ∷ [])
      ∷ ("B" ∷ "C" ∷ [])
      ∷ ("B" ∷ "D" ∷ [])
      ∷ ("B" ∷ "E" ∷ [])
      ∷ ("E" ∷ "F" ∷ [])
      ∷ ("E" ∷ "D" ∷ [])
      ∷ ("E" ∷ "G" ∷ [])
      ∷ ("A" ∷ "H" ∷ [])
      ∷ ("A" ∷ "G" ∷ [])
      ∷ ("A" ∷ "I" ∷ [])
      ∷ []);
  roles = some (
      ("A", mapping (some "leader"))
      ∷ ("B", mapping (some "team"))
      ∷ ("C", mapping (some "team"))
      ∷ ("D", mapping (some "team"))
      ∷ ("E", mapping (some "team"))
      ∷ ("F", mapping (some "team"))
      ∷ ("G", mapping (some "team"))
      ∷ ("H", mapping (some "team"))
      ∷ ("I", mapping (some "team"))
      ∷ []);
  hosts = some (
      (
        "host1",
        record {
          addr = some "192.168.1.139";
          procs = some ("A" ∷ "B" ∷ "C" ∷ "D" ∷ "E" ∷ "F" ∷ []);
        },
      )
      ∷ ("host2", record { addr = some "192.168.1.118"; procs = some ("G" ∷ "H" ∷ "I" ∷ []) })
      ∷ []);
  ports = some (
      ("A", 50051)
      ∷ ("B", 50052)
      ∷ ("C", 50053)
      ∷ ("D", 50054)
      ∷ ("E", 50055)
      ∷ ("F", 50056)
      ∷ ("G", 50057)
      ∷ ("H", 50058)
      ∷ ("I", 50059)
      ∷ []);
}
