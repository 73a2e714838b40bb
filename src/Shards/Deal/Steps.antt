-- ===== src/Shards/Deal/Steps.antt =====
-- The nine files and counters as functions of the node's number.
use mini2_anu_asim.Prelude.{
  ℕ, zero, suc, ◌+◌, ◌%◌, ◌<◌, ◌≡◌, refl, String, some, List, [], ◌∷◌, ◌++◌, arith, ◌==◌,
  if◌then◌else◌, ok, get_elem?,
}
use mini2_anu_asim.Prelude.Dict.{Dict, get, set}
use mini2_anu_asim.Shards.Deal.{nodes, node_at, Shards, write}

-- The name of a node by its number.
abbrev pub name : ℕ → String
name zero = "A"
name (suc zero) = "B"
name (suc (suc zero)) = "C"
name (suc (suc (suc zero))) = "D"
name (suc (suc (suc (suc zero)))) = "E"
name (suc (suc (suc (suc (suc zero))))) = "F"
name (suc (suc (suc (suc (suc (suc zero)))))) = "G"
name (suc (suc (suc (suc (suc (suc (suc zero))))))) = "H"
name _ = "I"

abbrev pub slots {ℓ} : {V : Type ℓ} → (ℕ → V) → Dict V
slots f =
    ("A", f 0)
    ∷ ("B", f 1)
    ∷ ("C", f 2)
    ∷ ("D", f 3)
    ∷ ("E", f 4)
    ∷ ("F", f 5)
    ∷ ("G", f 6)
    ∷ ("H", f 7)
    ∷ ("I", f 8)
    ∷ []

abbrev pub update {ℓ} : {V : Type ℓ} → (ℕ → V) → ℕ → V → ℕ → V
update f i v j = if i == j then v else f j

abbrev pub shards : (ℕ → List ℕ) → (ℕ → ℕ) → Shards
shards f c = record { files = slots f; counts = slots c }

module _ {ℓ} {V : Type ℓ} (f : ℕ → V) where
  pub get-slots : (i : ℕ) → i < 9 → get (name i) (slots f) ≡ some (f i)
  unfolding get
  get-slots zero h = refl
  get-slots (suc zero) h = refl
  get-slots (suc (suc zero)) h = refl
  get-slots (suc (suc (suc zero))) h = refl
  get-slots (suc (suc (suc (suc zero)))) h = refl
  get-slots (suc (suc (suc (suc (suc zero))))) h = refl
  get-slots (suc (suc (suc (suc (suc (suc zero)))))) h = refl
  get-slots (suc (suc (suc (suc (suc (suc (suc zero))))))) h = refl
  get-slots (suc (suc (suc (suc (suc (suc (suc (suc zero)))))))) h = refl
  get-slots (suc (suc (suc (suc (suc (suc (suc (suc (suc n))))))))) h = absurd (omega arith)

  set-slots : (i : ℕ) (v : V) → i < 9 → set (name i) v (slots f) ≡ slots (update f i v)
  unfolding set
  set-slots zero v h = refl
  set-slots (suc zero) v h = refl
  set-slots (suc (suc zero)) v h = refl
  set-slots (suc (suc (suc zero))) v h = refl
  set-slots (suc (suc (suc (suc zero)))) v h = refl
  set-slots (suc (suc (suc (suc (suc zero))))) v h = refl
  set-slots (suc (suc (suc (suc (suc (suc zero)))))) v h = refl
  set-slots (suc (suc (suc (suc (suc (suc (suc zero))))))) v h = refl
  set-slots (suc (suc (suc (suc (suc (suc (suc (suc zero)))))))) v h = refl
  set-slots (suc (suc (suc (suc (suc (suc (suc (suc (suc n))))))))) v h = absurd (omega arith)

get_elem?-nodes : (i : ℕ) → i < 9 → get_elem? nodes i ≡ some (name i)
get_elem?-nodes zero h = refl
get_elem?-nodes (suc zero) h = refl
get_elem?-nodes (suc (suc zero)) h = refl
get_elem?-nodes (suc (suc (suc zero))) h = refl
get_elem?-nodes (suc (suc (suc (suc zero)))) h = refl
get_elem?-nodes (suc (suc (suc (suc (suc zero))))) h = refl
get_elem?-nodes (suc (suc (suc (suc (suc (suc zero)))))) h = refl
get_elem?-nodes (suc (suc (suc (suc (suc (suc (suc zero))))))) h = refl
get_elem?-nodes (suc (suc (suc (suc (suc (suc (suc (suc zero)))))))) h = refl
get_elem?-nodes (suc (suc (suc (suc (suc (suc (suc (suc (suc n))))))))) h = absurd (omega arith)

pub node_at_lem : (idx : ℕ) → node_at idx ≡ ok (name (idx % 9))
unfolding node_at
node_at_lem idx = rw (get_elem?-nodes (idx % 9) (omega arith)) refl

-- A write to a node's file appends to it and counts one more record, and leaves the others alone.
pub write_lem :
    (f : ℕ → List ℕ) (c : ℕ → ℕ) (i : ℕ) (part : List ℕ)
    → i < 9
    → write (name i) part (shards f c)
      ≡ ok (shards (update f i (f i ++ part)) (update c i (c i + 1)))
unfolding write
write_lem f c i part h =
    rw (get-slots f i h, get-slots c i h, set-slots f i (f i ++ part) h, set-slots c i (c i + 1) h)
      refl
