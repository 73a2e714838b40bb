-- ===== src/Prelude/Items.antt =====
-- Lists of strings that hold the same items, as often.
use mathlib.Core.List.{Perm}
use mathlib.Core.List.Perm
use mathlib.Core.List.Permᴰ
use mini2_anu_asim.Prelude.{
  ℕ, ◌+◌, ◌<◌, ◌≡◌, refl, subst, String, str_eq, eq_iff, List, [], ◌∷◌, ◌++◌, map, append_assoc,
  arith, length, length-append, flatten, if◌then◌else◌, Bool-cases, inl, inr, All,
}

abbrev pub occurrences : String → List String → ℕ
occurrences v [] = 0
occurrences v (x ∷ xs) = (if str_eq x v then 1 else 0) + occurrences v xs

pub occurrences-append :
    (v : String) (xs ys : List String)
    → occurrences v (xs ++ ys) ≡ occurrences v xs + occurrences v ys
occurrences-append v [] ys = omega arith
occurrences-append v (x ∷ xs) ys = omega (arith, occurrences-append v xs ys)

-- What holds of every string that occurs holds of the whole list.
pub All-occurring {ℓ} :
    (P : String → Type ℓ) (xs : List String)
    → ((v : String) → 0 < occurrences v xs → P v)
    → All P xs
All-occurring P [] h = tt
All-occurring P (x ∷ xs) h =
    (h x (ground (arith, eq_iff x x)), All-occurring P xs (λ v k. h v (omega (arith, k))))

module _ {ℓ} {B : Type ℓ} (f : String → List B) where
  abbrev pub spread : List String → List B
  spread xs = flatten (map f xs)

  swap_parts : (a b rest : List B) → Perm (a ++ (b ++ rest)) (b ++ (a ++ rest))
  swap_parts a b rest =
      subst (λ l. Perm l (b ++ (a ++ rest))) (append_assoc a b rest)
        (subst (λ l. Perm ((a ++ b) ++ rest) l) (append_assoc b a rest)
          (Perm.append_right rest ∣ Permᴰ.append_comm a b ∣₁))

  -- An item that occurs, taken to the front.
  record Picked (x : String) (ys : List String) : Type ℓ where
    rest : List String
    same : (v : String) → occurrences v ys ≡ (if str_eq x v then 1 else 0) + occurrences v rest
    moved : Perm (spread ys) (f x ++ spread rest)
    size : length (spread ys) ≡ length (f x ++ spread rest)

  pick : (x : String) (ys : List String) → 0 < occurrences x ys → Picked x ys
  pick x [] h = absurd (omega (arith, h))
  pick x (y ∷ ys) h = elim (Bool-cases (str_eq y x)) [
    | inl e ↦
        subst (λ z. Picked z (y ∷ ys)) ((eq_iff y x).0 e)
          (record { rest = ys; same = λ v. refl; moved = Perm.refl _; size = refl })
    | inr e ↦
        let p = pick x ys (ground arith) in
        record {
          rest = y ∷ p.rest;
          same = λ v. omega (arith, p.same v);
          moved =
              Perm.trans (Perm.append_left (f y) p.moved) (swap_parts (f y) (f x) (spread p.rest));
          size = omega (
            arith,
            p.size,
            length-append (f y) (spread ys),
            length-append (f x) (spread p.rest),
            length-append (f x) (f y ++ spread p.rest),
            length-append (f y) (spread p.rest),
          );
        }
  ]

  -- Two lists that hold the same items as often spread to permutations of each other.
  pub spread-Perm :
      (xs ys : List String)
      → ((v : String) → occurrences v xs ≡ occurrences v ys)
      → Perm (spread xs) (spread ys) × (length (spread xs) ≡ length (spread ys))
  spread-Perm [] [] h = (Perm.refl _, refl)
  spread-Perm [] (y ∷ ys) h = absurd (ground (arith, h y, eq_iff y y))
  spread-Perm (x ∷ xs) ys h =
      let p = pick x ys (ground (arith, h x, eq_iff x x)) in
      let (moved, size) = spread-Perm xs p.rest (λ v. omega (arith, h v, p.same v)) in
      (
        Perm.trans (Perm.append_left (f x) moved) (Perm.symm p.moved),
        omega (
          arith,
          size,
          p.size,
          length-append (f x) (spread xs),
          length-append (f x) (spread p.rest),
        ),
      )
