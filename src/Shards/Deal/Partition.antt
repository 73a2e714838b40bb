-- ===== src/Shards/Deal/Partition.antt =====
-- The shares of the nodes, put together: every item once.
use mathlib.Core.List.{Perm, perm_middle}
use mathlib.Core.List.Perm
use mini2_anu_asim.Prelude.{
  ℕ, ◌+◌, ◌%◌, ◌<◌, ◌≡◌, ◌≢◌, refl, subst, sym, List, [], ◌∷◌, map, arith, flatten, All,
}
use mini2_anu_asim.Shards.Deal.Shares.{share}

-- A number stands in a list exactly once.
pub data Once : ℕ → List ℕ → Type 0 where
  here : {k : ℕ} {js : List ℕ} → All (λ j. j ≢ k) js → Once k (k ∷ js)
  there : {k j : ℕ} {js : List ℕ} → j ≢ k → Once k js → Once k (j ∷ js)

-- The shares of some nodes behind each other, in the order of the nodes.
abbrev pub gathered {ℓ} : {A : Type ℓ} → ℕ → List A → List ℕ → List A
gathered idx ps js = flatten (map (λ j. share j idx ps) js)

module _ {ℓ} {A : Type ℓ} where
  share-hit :
      (k idx : ℕ) (p : A) (ps : List A)
      → k ≡ idx % 9
      → share k idx (p ∷ ps) ≡ p ∷ share k (idx + 1) ps
  unfolding share
  share-hit k idx p ps h = ground arith

  share-miss :
      (j idx : ℕ) (p : A) (ps : List A) → j ≢ idx % 9 → share j idx (p ∷ ps) ≡ share j (idx + 1) ps
  unfolding share
  share-miss j idx p ps h = ground arith

  gathered-miss :
      (js : List ℕ) (idx : ℕ) (p : A) (ps : List A)
      → All (λ j. j ≢ idx % 9) js
      → gathered idx (p ∷ ps) js ≡ gathered (idx + 1) ps js
  gathered-miss [] idx p ps h = refl
  gathered-miss (j ∷ js) idx p ps h =
      rw (share-miss j idx p ps h.0, gathered-miss js idx p ps h.1) refl

  gathered-Once :
      {k : ℕ} (js : List ℕ) (idx : ℕ) (p : A) (ps : List A)
      → k ≡ idx % 9
      → Once k js
      → Perm (gathered idx (p ∷ ps) js) (p ∷ gathered (idx + 1) ps js)
  gathered-Once {k} js idx p ps e (here {js = rest} apart) =
      rw (share-hit k idx p ps e, gathered-miss rest idx p ps (rw e at apart)) (Perm.refl _)
  gathered-Once {k} js idx p ps e (there {j = j} {js = rest} apart once) =
      rw (share-miss j idx p ps (rw e at apart)) (
        Perm.trans (Perm.append_left (share j (idx + 1) ps) (gathered-Once rest idx p ps e once))
          (perm_middle (share j (idx + 1) ps) (gathered (idx + 1) ps rest)))

  gathered-nil : (js : List ℕ) (idx : ℕ) → gathered {A = A} idx [] js ≡ []
  unfolding share
  gathered-nil [] idx = refl
  gathered-nil (j ∷ js) idx = gathered-nil js idx

  gathered-Perm :
      (js : List ℕ) (idx : ℕ) (ps : List A)
      → ((k : ℕ) → k < 9 → Once k js)
      → Perm (gathered idx ps js) ps
  gathered-Perm js idx [] each = subst (λ l. Perm l []) (sym (gathered-nil js idx)) Perm.nil
  gathered-Perm js idx (p ∷ ps) each =
      Perm.trans (gathered-Once js idx p ps refl (each (idx % 9) (omega arith)))
        (Perm.cons p (gathered-Perm js (idx + 1) ps each))

  -- If a list names each of the nine nodes exactly once, the shares of the nodes in its order, put
  -- behind each other, are a permutation of the items: nothing is lost and nothing doubled.
  pub shares_partition :
      (js : List ℕ) (ps : List A)
      → ((k : ℕ) → k < 9 → Once k js)
      → Perm (flatten (map (λ j. share j 0 ps) js)) ps
  shares_partition js ps each = gathered-Perm js 0 ps each
