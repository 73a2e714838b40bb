-- ===== src/Team/Payload.antt =====
-- `loadShardPayload` of src/team_node/team_node.cpp, and that it loads what the Python node loads.
use mini2_anu_asim.Prelude.{
  ℕ, ◌-◌, ◌%◌, ◌≡◌, ◌≢◌, refl, ap, ◌∙◌, String, ◌<>◌, str_eq, eq_iff, false, Option, none, some,
  List, [], ◌∷◌, arith, if◌then◌else◌, ◌==◌, length, take, All, Option-cases, inl, inr,
}
use text.Mathlib.TextLemmas.{append_assoc}
use mini2_anu_asim.Prelude.Paths.{ends_with_slash, join_path}
use mini2_anu_asim.Node.Payload.{Files, roots, shard_file, trim, load_from, load_shard_payload}

-- The directories that are tried; an empty one counts as well.
unfoldable pub tried_roots : Option String → List String
tried_roots none = "shards" ∷ "../shards" ∷ []
tried_roots (some dir) = dir ∷ "shards" ∷ "../shards" ∷ []

abbrev pub shard_name : String → String → String
shard_name id root = root <> "/shard_" <> id <> ".bin"

-- `data.resize(data.size() - extra)`, if there are bytes of a partial record.
unfoldable pub resized : List ℕ → List ℕ
resized bytes =
    let extra = length bytes % 20 in if extra == 0 then bytes else take (length bytes - extra) bytes

-- The loop over the directories; a file that cannot be opened is passed over.
unfoldable pub load_first : Files → String → List String → List ℕ
unfolding resized
load_first fs id [] = []
load_first fs id (root ∷ rest) = elim (fs (shard_name id root)) [
  | none ↦ load_first fs id rest
  | some bytes ↦ resized bytes
]

-- `loadShardPayload`.
unfoldable pub load_payload : Files → Option String → String → List ℕ
unfolding load_first tried_roots
load_payload fs env id = load_first fs id (tried_roots env)

-- The payload that the constructor keeps: the shard, or the bytes of `buildFallbackPayload` if that is
-- empty.
unfoldable pub keep_payload : List ℕ → List ℕ → List ℕ
keep_payload fallback [] = fallback
keep_payload fallback (b ∷ bytes) = b ∷ bytes

unfoldable pub start_payload : List ℕ → Files → Option String → String → List ℕ
unfolding keep_payload load_payload
start_payload fallback fs env id = keep_payload fallback (load_payload fs env id)

-- A directory's path that is not empty and does not end with a slash.
abbrev pub IsPlain : String → Type 0
IsPlain dir = (dir ≢ "") × (ends_with_slash dir ≡ false)

shard_name-shard_file : (id root : String) → IsPlain root → shard_name id root ≡ shard_file id root
unfolding join_path
shard_name-shard_file id root h =
    let named : str_eq root "" ≡ false = ground (arith, eq_iff root "", h.0) in
    rw (named, h.1) (ap (λ s. root <> s) (append_assoc "/" "shard_" (id <> ".bin")))

resized-trim : (bytes : List ℕ) → resized bytes ≡ trim bytes
unfolding resized trim
resized-trim bytes = refl

load_first-load_from :
    (fs : Files) (id : String) (rs : List String)
    → All IsPlain rs
    → load_first fs id rs ≡ load_from fs id rs
unfolding load_first load_from
load_first-load_from fs id [] h = refl
load_first-load_from fs id (r ∷ rs) h =
    let same = shard_name-shard_file id r h.0 in
    elim (Option-cases (fs (shard_file id r))) [
      | inl e ↦ rw (ap fs same ∙ e, e, load_first, load_from) (load_first-load_from fs id rs h.1)
      | inr (bytes, e) ↦ rw (ap fs same ∙ e, e, load_first, load_from) (resized-trim bytes)
    ]

defaults-IsPlain : All IsPlain ("shards" ∷ "../shards" ∷ [])
unfolding ends_with_slash
defaults-IsPlain = (
  (λ h. let same = (eq_iff "shards" "").1 h in cc, refl),
  ((λ h. let same = (eq_iff "../shards" "").1 h in cc, refl), tt),
)

-- If `MINI2_SHARD_DIR` is not set, or set to a path that is not empty and does not end with a slash, a
-- C++ node loads the same payload as a Python node of the same name.
pub load_payload-load_shard_payload :
    (fs : Files) (env : Option String) (id : String)
    → ((dir : String) → env ≡ some dir → IsPlain dir)
    → load_payload fs env id ≡ load_shard_payload fs env id
unfolding load_payload load_shard_payload tried_roots roots
load_payload-load_shard_payload fs none id h =
    load_first-load_from fs id ("shards" ∷ "../shards" ∷ []) defaults-IsPlain
load_payload-load_shard_payload fs (some dir) id h =
    let plain = h dir refl in
    let named : str_eq dir "" ≡ false = ground (arith, eq_iff dir "", plain.0) in
    rw named
      (load_first-load_from fs id (dir ∷ "shards" ∷ "../shards" ∷ []) (plain, defaults-IsPlain))
