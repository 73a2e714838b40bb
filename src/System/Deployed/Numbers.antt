-- ===== src/System/Deployed/Numbers.antt =====
-- The names of nodes that are named like shards, and the numbers of these shards.
use mini2_anu_asim.Prelude.{
  ℕ, zero, suc, ◌/◌, ◌≤◌, ◌<◌, ◌≡◌, refl, sym, ap, subst, ◌∙◌, String, str_eq, eq_iff, List, [],
  ◌∷◌, map, arith, ok, All, ◌↔◌, inl, inr, Bool-cases,
}
use mini2_anu_asim.Prelude.Int.{pos}
use mini2_anu_asim.Prelude.Items.{occurrences}
use mini2_anu_asim.Shards.Deal.Steps.{name}
use mini2_anu_asim.Node.Payload.{base_of}
use mini2_anu_asim.System.Started.{base_of-name}

-- The number of a shard by its name.
pub number : String → ℕ
number id = elim (base_of id) [ ok (pos n) ↦ n / 10 | _ ↦ 0 ]

number-name : (j : ℕ) → j < 9 → number (name j) ≡ j
unfolding number
number-name j h = rw (base_of-name j h, number) (omega arith)

-- A name among those of some shards.
pub named {ℓ} :
    (Q : ℕ → Type ℓ) (v : String) (js : List ℕ)
    → All (λ j. j < 9) js
    → All Q js
    → 0 < occurrences v (map name js)
    → (number v < 9) × (name (number v) ≡ v) × Q (number v)
named Q v [] small h k = absurd (omega (arith, k))
named Q v (j ∷ js) small h k = elim (Bool-cases (str_eq (name j) v)) [
  | inl e ↦
      let same : name j ≡ v = (eq_iff (name j) v).0 e in
      let at : j ≡ number v = sym (number-name j small.0) ∙ ap number same in
      subst (λ n. (n < 9) × (name n ≡ v) × Q n) at (small.0, same, h.0)
  | inr e ↦ named Q v js small.1 h.1 (ground arith)
]

pub map-named :
    (vs : List String) → All (λ v. name (number v) ≡ v) vs → map name (map number vs) ≡ vs
map-named [] h = refl
map-named (v ∷ vs) h = rw (h.0, map-named vs h.1) refl

pub All-numbers {ℓ} :
    (Q : ℕ → Type ℓ) (vs : List String) → All (λ v. Q (number v)) vs → All Q (map number vs)
All-numbers Q [] h = tt
All-numbers Q (v ∷ vs) h = (h.0, All-numbers Q vs h.1)

pub map-number : (js : List ℕ) → All (λ j. j < 9) js → map number (map name js) ≡ js
map-number [] h = refl
map-number (j ∷ js) h = rw (number-name j h.0, map-number js h.1) refl

pub equal_flags : (n m : ℕ) → n ≤ 1 → m ≤ 1 → ((n ≡ 1) ↔ (m ≡ 1)) → n ≡ m
equal_flags zero zero h k e = refl
equal_flags zero (suc m) h k e = absurd (omega (arith, e.1 (omega arith)))
equal_flags (suc n) zero h k e = absurd (omega (arith, e.0 (omega arith)))
equal_flags (suc n) (suc m) h k e = omega arith

pub map-map {ℓ} :
    {B : Type ℓ} (f : ℕ → B) (vs : List String) → map f (map number vs) ≡ map (λ v. f (number v)) vs
map-map f [] = refl
map-map f (v ∷ vs) = ap (λ r. f (number v) ∷ r) (map-map f vs)
