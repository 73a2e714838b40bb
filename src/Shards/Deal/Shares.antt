-- ===== src/Shards/Deal/Shares.antt =====
-- The reference: which rows are dealt, what they become, and which of them a node gets.
use mini2_anu_asim.Prelude.{
  ℕ, zero, suc, ◌+◌, ◌-◌, ◌/◌, ◌%◌, ◌<◌, ◌≡◌, List, [], ◌∷◌, arith, ◌==◌, if◌then◌else◌, Result, ok,
  err, length, take,
}
use mini2_anu_asim.Prelude.Int.{ℤ, pos, negsuc}
use mini2_anu_asim.Prelude.Text.{Unicode}
use mini2_anu_asim.Prelude.Floats.{Floats}
use mini2_anu_asim.Shards.Fields.{Row, row_to_record}

-- The rows before the limit: all of them for 0, none for a negative number.
abbrev pub limited : ℤ → List Row → List Row
limited (pos zero) rows = rows
limited (pos (suc n)) rows = take (suc n) rows
limited (negsuc n) rows = []

module _ (u : Unicode) (fl : Floats) where
  -- The records of the rows before the first that raises.
  unfoldable pub encoded : List Row → List (List ℕ)
  encoded [] = []
  encoded (row ∷ rows) = elim (row_to_record u fl row) [
    | err e ↦ []
    | ok part ↦ part ∷ encoded rows
  ]

  -- How the rows end: the first exception, if there is one.
  unfoldable pub outcome : List Row → Result (Unit {0})
  outcome [] = ok tt
  outcome (row ∷ rows) = elim (row_to_record u fl row) [ err e ↦ err e | ok part ↦ outcome rows ]

-- The items whose number is congruent to `j`, the first item having the number `idx`.
unfoldable pub share {ℓ} : {A : Type ℓ} → ℕ → ℕ → List A → List A
share j idx [] = []
share j idx (p ∷ ps) = let rest = share j (idx + 1) ps in if idx % 9 == j then p ∷ rest else rest

-- The number of items that go to node `j`.
pub length-share {ℓ} :
    {A : Type ℓ} (j idx : ℕ) (ps : List A)
    → j < 9
    → length (share j idx ps) + (idx + 8 - j) / 9 ≡ (idx + length ps + 8 - j) / 9
unfolding share
length-share j idx [] h = omega arith
length-share j idx (p ∷ ps) h = ground (arith, length-share j (idx + 1) ps h)
