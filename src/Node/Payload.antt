-- ===== src/Node/Payload.antt =====
-- The records that a node serves: `_load_shard_payload` and `_build_fallback_payload`.
pub mod Load
pub mod Fallback
use Prim.Native.Char.{code}
use mini2_anu_asim.Prelude.{
  ℕ, zero, suc, ◌+◌, ◌-◌, ◌*◌, ◌%◌, String, ◌<>◌, str_eq, Bool, true, false, Option, none, some,
  List, [], ◌∷◌, ◌++◌, if◌then◌else◌, ◌==◌, Result, ok, err, type_error, ◌>>=◌, length, take,
}
use mini2_anu_asim.Prelude.Int.{ℤ, pos, negsuc, ◌+ℤ◌, sub_ℕ, mod_ℤ}
use mini2_anu_asim.Prelude.Floats.{Floats}
use mini2_anu_asim.Prelude.Paths.{join_path}
use mini2_anu_asim.Struct.{Fields, pack_fields, record_size}

-- The file system: the bytes of the file at a path, if there is one.
abbrev pub Files : Type 0
Files = String → Option (List ℕ)

-- The directories that are tried, that of `MINI2_SHARD_DIR` first if it is set and not empty.
unfoldable pub roots : Option String → List String
roots none = "shards" ∷ "../shards" ∷ []
roots (some dir) =
    if str_eq dir "" then "shards" ∷ "../shards" ∷ [] else dir ∷ "shards" ∷ "../shards" ∷ []

abbrev pub shard_file : String → String → String
shard_file node root = join_path root ("shard_" <> node <> ".bin")

-- `data[:-extra]`, if there are bytes of a partial record.
unfoldable pub trim : List ℕ → List ℕ
trim bytes =
    let extra = length bytes % record_size in
    if extra == 0 then bytes else take (length bytes - extra) bytes

-- The loop over the directories.
unfoldable pub load_from : Files → String → List String → List ℕ
unfolding trim
load_from fs node [] = []
load_from fs node (root ∷ rest) = elim (fs (shard_file node root)) [
  | none ↦ load_from fs node rest
  | some bytes ↦ trim bytes
]

unfoldable pub load_shard_payload : Files → Option String → String → List ℕ
unfolding load_from roots
load_shard_payload fs env node = load_from fs node (roots env)

-- `(ord(node_id) - ord("A")) * 10`; `ord` wants one character.
unfoldable pub base_of : String → Result ℤ
base_of String.[] = err type_error
base_of (String.◌∷◌ c String.[]) = ok (sub_ℕ (10 * code c) 650)
base_of (String.◌∷◌ c (String.◌∷◌ d s)) = err type_error

module _ (fl : Floats) where
  -- The record of the number `i`.
  unfoldable pub sample : ℤ → Fields fl
  sample i = record {
    key = pos 10000000 +ℤ i;
    latitude = fl.add (fl.decimal 407000 4) (fl.mul (fl.of_int i) (fl.decimal 1 3));
    longitude = fl.sub (fl.neg (fl.decimal 739000 4)) (fl.mul (fl.of_int i) (fl.decimal 1 3));
    incident_zip = 10000 + mod_ℤ i 200;
    year = 2020 + mod_ℤ i 5;
    status = mod_ℤ i 4;
    borough = mod_ℤ i 6;
  }

  -- The loop over `n` numbers from `i` on, and the join of its parts.
  unfoldable pub samples : ℕ → ℤ → Result (List ℕ)
  unfolding sample
  samples zero i = ok []
  samples (suc n) i = do
    part ← pack_fields fl (sample i)
    rest ← samples n (i +ℤ pos 1)
    ok (part ++ rest)

  unfoldable pub build_fallback_payload : ℤ → Result (List ℕ)
  unfolding samples
  build_fallback_payload base = samples 10 base

  -- The payload that `__init__` keeps: the shard, or the sample records if that is empty.
  unfoldable pub choose_payload : List ℕ → ℤ → Result (List ℕ)
  choose_payload [] base = build_fallback_payload base
  choose_payload (b ∷ bytes) base = ok (b ∷ bytes)

  unfoldable pub init_payload : Files → Option String → String → Result (List ℕ)
  unfolding base_of load_shard_payload choose_payload build_fallback_payload
  init_payload fs env node = do
    base ← base_of node
    choose_payload (load_shard_payload fs env node) base
