-- ===== src/System/Started.antt =====
-- Nodes of both kinds that start on the shards of one run of `main`.
use mini2_anu_asim.Prelude.{
  ℕ, zero, suc, ◌*◌, ◌<◌, ◌≤◌, ◌≡◌, refl, sym, ap, subst, ◌∙◌, String, Bool, true, false, some,
  List, [], ◌∷◌, map, arith, ok, length, flatten, All, inl, inr, Bool-cases,
}
use mini2_anu_asim.Prelude.Int.{ℤ, pos}
use mini2_anu_asim.Prelude.Text.{Unicode}
use mini2_anu_asim.Prelude.Floats.{Floats}
use mini2_anu_asim.Struct.Total.{length-flatten_records}
use mini2_anu_asim.Shards.Fields.{Row}
use mini2_anu_asim.Shards.Deal.Steps.{name}
use mini2_anu_asim.Shards.Deal.Shares.{length-share}
use mini2_anu_asim.Shards.Deal.Results.{records}
use mini2_anu_asim.Node.Payload.{Files, base_of}
use mini2_anu_asim.Team.Payload.{
  IsPlain, keep_payload, start_payload, load_payload, load_payload-load_shard_payload,
}
use mini2_anu_asim.System.Complete.{
  Stored, Loaded, shard, load_shard, shard-AreRecords, Loaded-flatten-shard,
}

keep_payload-kept :
    (fallback bytes : List ℕ) → 0 < length bytes → keep_payload fallback bytes ≡ bytes
unfolding keep_payload
keep_payload-kept fallback [] h = absurd (omega arith)
keep_payload-kept fallback (b ∷ bytes) h = refl

-- The names of the shards are single letters.
pub base_of-name : (j : ℕ) → j < 9 → base_of (name j) ≡ ok (pos (10 * j))
unfolding base_of
base_of-name zero h = refl
base_of-name (suc zero) h = refl
base_of-name (suc (suc zero)) h = refl
base_of-name (suc (suc (suc zero))) h = refl
base_of-name (suc (suc (suc (suc zero)))) h = refl
base_of-name (suc (suc (suc (suc (suc zero))))) h = refl
base_of-name (suc (suc (suc (suc (suc (suc zero)))))) h = refl
base_of-name (suc (suc (suc (suc (suc (suc (suc zero))))))) h = refl
base_of-name (suc (suc (suc (suc (suc (suc (suc (suc zero)))))))) h = refl
base_of-name (suc (suc (suc (suc (suc (suc (suc (suc (suc j))))))))) h = absurd (omega arith)

module _ (u : Unicode) (fl : Floats) (limit : ℤ) (dir : String) (rows : List Row) (fs : Files)
    (cpp : String → Bool) (fallback : String → List ℕ) where
  -- The node keeps this payload when it starts, with the C++ program or the Python program, with
  -- `MINI2_SHARD_DIR` set to the directory. `fallback` has the sample records of the C++ program.
  abbrev pub Started : String × List ℕ → Type 0
  Started (id, payload) = elim (cpp id) [
    | true ↦ start_payload (fallback id) fs (some dir) id ≡ payload
    | false ↦ Loaded u fl limit dir rows fs (id, payload)
  ]

  module _ (plain : IsPlain dir) (many : 9 ≤ length (records u fl limit dir rows))
      (stored : Stored u fl limit dir rows fs) where
    start_payload-shard :
        (j : ℕ)
        → j < 9
        → start_payload (fallback (name j)) fs (some dir) (name j)
          ≡ flatten (shard u fl limit dir rows fs j)
    unfolding start_payload
    start_payload-shard j h =
        let bytes = flatten (shard u fl limit dir rows fs j) in
        let size =
          length-flatten_records (shard u fl limit dir rows fs j)
            (shard-AreRecords u fl limit dir rows fs j) in
        let count = length-share j 0 (records u fl limit dir rows) h in
        let found : load_payload fs (some dir) (name j) ≡ bytes =
          load_payload-load_shard_payload fs (some dir) (name j)
            (λ d same. let at : dir ≡ d = cc in subst IsPlain at plain)
          ∙ load_shard u fl limit dir rows fs j h plain.0 stored in
        ap (keep_payload (fallback (name j))) found
        ∙ keep_payload-kept (fallback (name j)) bytes (omega (arith, size, count))

    Loaded-shard :
        (j : ℕ)
        → j < 9
        → Loaded u fl limit dir rows fs (name j, flatten (shard u fl limit dir rows fs j))
    Loaded-shard j h =
        Loaded-flatten-shard u fl limit dir rows fs j (pos (10 * j)) h plain.0 many stored
          (base_of-name j h)

    -- A node that is named like a shard starts with it, in either program.
    pub Started-shard : (j : ℕ) → j < 9 → Started (name j, flatten (shard u fl limit dir rows fs j))
    Started-shard j h = elim (Bool-cases (cpp (name j))) [
      | inl e ↦ rw (e, Started) (start_payload-shard j h)
      | inr e ↦ rw (e, Started) (Loaded-shard j h)
    ]

    Loaded-Started :
        (j : ℕ) (payload : List ℕ)
        → j < 9
        → Started (name j, payload)
        → Loaded u fl limit dir rows fs (name j, payload)
    Loaded-Started j payload h s = elim (Bool-cases (cpp (name j))) [
      | inl e ↦
          subst (λ bs. Loaded u fl limit dir rows fs (name j, bs))
            (sym (start_payload-shard j h) ∙ (rw (e, Started) at s)) (Loaded-shard j h)
      | inr e ↦ rw (e, Started) at s
    ]

    pub All-Loaded :
        (nodes : List (String × List ℕ)) (js : List ℕ)
        → All (λ j. j < 9) js
        → map (λ n. n.0) nodes ≡ map name js
        → All Started nodes
        → All (Loaded u fl limit dir rows fs) nodes
    All-Loaded [] js small ids started = tt
    All-Loaded (n ∷ nodes) [] small ids started = absurd cc
    All-Loaded ((id, payload) ∷ nodes) (j ∷ js) small ids started =
        let first : id ≡ name j = cc in
        let others : map (λ n. n.0) nodes ≡ map name js = cc in
        (
          subst (λ i. Loaded u fl limit dir rows fs (i, payload)) (sym first)
              (Loaded-Started j payload small.0
                (subst (λ i. Started (i, payload)) first started.0)),
          All-Loaded nodes js small.1 others started.1,
        )
