-- ===== src/Prelude/Dict.antt =====
-- Python's `dict` with string keys: an association list in insertion order. A write to a key that is
-- there keeps its place, and a write to a new key goes to the end.
use mini2_anu_asim.Prelude.{
  String, ◌≡◌, refl, sym, subst, inl, inr, All, Bool-cases, Bool, true, false, Option, none, some,
  List, [], ◌∷◌, ◌++◌, ◌||◌, arith, str_eq, eq_iff, if◌then◌else◌,
}

abbrev pub Dict {ℓ} : Type ℓ → Type ℓ
Dict V = List (String × V)

-- `k in xs` for a list of strings.
unfoldable pub contains : String → List String → Bool
contains k [] = false
contains k (j ∷ js) = if str_eq j k then true else contains k js

module _ {ℓ} {V : Type ℓ} where
  -- `d.get(k)`.
  unfoldable pub get : String → Dict V → Option V
  get k [] = none
  get k ((j, v) ∷ d) = if str_eq j k then some v else get k d

  -- `d[k] = v`.
  unfoldable pub set : String → V → Dict V → Dict V
  set k v [] = (k, v) ∷ []
  set k v ((j, w) ∷ d) = let rest = set k v d in if str_eq j k then (j, v) ∷ d else (j, w) ∷ rest

  -- The dictionary without a key.
  unfoldable pub erase : String → Dict V → Dict V
  erase k [] = []
  erase k ((j, v) ∷ d) = let rest = erase k d in if str_eq j k then rest else (j, v) ∷ rest

  -- `d.keys()` and `d.values()`, in order.
  abbrev pub keys : Dict V → List String
  keys [] = []
  keys ((k, v) ∷ d) = k ∷ keys d

  abbrev pub values : Dict V → List V
  values [] = []
  values ((k, v) ∷ d) = v ∷ values d

  pub get-set :
      (k j : String) (v : V) (d : Dict V)
      → get j (set k v d) ≡ (if str_eq k j then some v else get j d)
  unfolding get set
  get-set k j v [] = refl
  get-set k j v ((i, w) ∷ d) = ground (arith, eq_iff k j, eq_iff i k, eq_iff i j, get-set k j v d)

  pub get-erase :
      (k j : String) (d : Dict V) → get j (erase k d) ≡ (if str_eq k j then none else get j d)
  unfolding get erase
  get-erase k j [] = ground arith
  get-erase k j ((i, w) ∷ d) = ground (arith, eq_iff k j, eq_iff i k, eq_iff i j, get-erase k j d)

  pub keys-set :
      (k : String) (v : V) (d : Dict V)
      → keys (set k v d) ≡ (if contains k (keys d) then keys d else keys d ++ k ∷ [])
  unfolding set contains
  keys-set k v [] = refl
  keys-set k v ((j, w) ∷ d) = ground (arith, keys-set k v d)

  pub get-keys-none : (k : String) (d : Dict V) → get k d ≡ none → contains k (keys d) ≡ false
  unfolding get contains
  get-keys-none k [] h = refl
  get-keys-none k ((j, w) ∷ d) h = ground (arith, get-keys-none k d)

  pub get-keys-some :
      (k : String) (v : V) (d : Dict V) → get k d ≡ some v → contains k (keys d) ≡ true
  unfolding get contains
  get-keys-some k v [] h = cc
  get-keys-some k v ((j, w) ∷ d) h = ground (arith, get-keys-some k v d)

abbrev pub is_some {ℓ} : {A : Type ℓ} → Option A → Bool
is_some none = false
is_some (some a) = true

-- A key is among the keys exactly if it has a value.
pub contains-keys {ℓ} :
    {V : Type ℓ} (k : String) (d : Dict V) → contains k (keys d) ≡ is_some (get k d)
unfolding get contains
contains-keys k [] = refl
contains-keys k ((j, v) ∷ d) = ground (arith, contains-keys k d)

pub contains-append :
    (k : String) (xs ys : List String) → contains k (xs ++ ys) ≡ contains k xs || contains k ys
unfolding contains
contains-append k [] ys = refl
contains-append k (x ∷ xs) ys = ground (arith, contains-append k xs ys)

pub contains-singleton : (k x : String) → contains k (x ∷ []) ≡ str_eq x k
unfolding contains
contains-singleton k x = ground arith

-- No key twice.
abbrev pub Distinct : List String → Type 0
Distinct [] = Unit
Distinct (x ∷ xs) = (contains x xs ≡ false) × Distinct xs

pub Distinct-concat :
    (xs : List String) (k : String) → Distinct xs → contains k xs ≡ false → Distinct (xs ++ k ∷ [])
unfolding contains
Distinct-concat [] k h n = (refl, tt)
Distinct-concat (x ∷ xs) k h n = (
  ground (arith, contains-append x xs (k ∷ []), eq_iff k x, eq_iff x k),
  Distinct-concat xs k h.1 (ground arith),
)

module _ {ℓ κ} {V : Type ℓ} (P : String × V → Type κ) where
  pub All-set : (k : String) (v : V) (d : Dict V) → P (k, v) → All P d → All P (set k v d)
  unfolding set
  All-set k v [] p h = (p, tt)
  All-set k v ((j, w) ∷ d) p h = elim (Bool-cases (str_eq j k)) [
    | inl q ↦ let same : k ≡ j = sym ((eq_iff j k).0 q) in rw q (subst (λ i. P (i, v)) same p, h.1)
    | inr q ↦ rw q (h.0, All-set k v d p h.1)
  ]

  pub All-get : (k : String) (v : V) (d : Dict V) → All P d → get k d ≡ some v → P (k, v)
  unfolding get
  All-get k v [] h e = absurd (cc)
  All-get k v ((j, w) ∷ d) h e = elim (Bool-cases (str_eq j k)) [
    | inl q ↦
        let same : j ≡ k = (eq_iff j k).0 q in
        let value : w ≡ v = ground arith in
        subst (λ u. P (k, u)) value (subst (λ i. P (i, w)) same h.0)
    | inr q ↦ All-get k v d h.1 (ground arith)
  ]

-- What holds of the entries under the other keys holds behind `erase`.
pub All-erase {ℓ κ μ} :
    {V : Type ℓ} (P : String × V → Type κ) (Q : String × V → Type μ) (k : String) (d : Dict V)
    → ((j : String) (v : V) → str_eq j k ≡ false → P (j, v) → Q (j, v))
    → All P d
    → All Q (erase k d)
unfolding erase
All-erase P Q k [] keep h = tt
All-erase P Q k ((j, w) ∷ d) keep h = elim (Bool-cases (str_eq j k)) [
  | inl q ↦ rw q (All-erase P Q k d keep h.1)
  | inr q ↦ rw q (keep j w q h.0, All-erase P Q k d keep h.1)
]
