-- ===== src/Node/Tree/Grow.antt =====
-- The two loops of the breadth-first search: what a round does to the dictionary of parents and to
-- the queue, and why the outer loop ends.
use mini2_anu_asim.Prelude.{
  ℕ, zero, suc, ◌+◌, ◌≤◌, ◌<◌, ◌≡◌, refl, ap, String, str_eq, eq_iff, Bool, true, false, not, ◌&&◌,
  ◌||◌, Option, none, some, List, [], ◌∷◌, ◌++◌, arith, if◌then◌else◌, ok, length, flatten,
  length-append, Bool-cases, inl, inr, List-cases, append_assoc,
}
use mini2_anu_asim.Prelude.Dict.{
  Dict, get, set, keys, values, contains, get-set, keys-set, is_some, contains-keys,
  contains-append, contains-singleton, Distinct, Distinct-concat,
}
use mini2_anu_asim.Node.Tree.{Graph, neighbours, Search, offer, visit, grow}

abbrev pub known : Search → String → Bool
known s v = is_some (get v s.parent)

-- What a node's entry becomes when `cur` may claim it.
abbrev pub claimed : Option (Option String) → Bool → String → Option (Option String)
claimed (some p) b cur = some p
claimed none b cur = if b then some (some cur) else none

pub get-offer :
    (cur nb v : String) (s : Search)
    → get v (offer cur s nb).parent ≡ claimed (get v s.parent) (str_eq nb v) cur
unfolding offer
get-offer cur nb v s =
    ground (arith, contains-keys nb s.parent, get-set nb v (some cur) s.parent, eq_iff nb v)

pub get-visit :
    (cur v : String) (nbs : List String) (s : Search)
    → get v (visit cur nbs s).parent ≡ claimed (get v s.parent) (contains v nbs) cur
unfolding visit contains
get-visit cur v [] s = ground arith
get-visit cur v (nb ∷ nbs) s =
    ground (arith, get-visit cur v nbs (offer cur s nb), get-offer cur nb v s)

pending-offer :
    (cur nb v : String) (s : Search)
    → contains v (offer cur s nb).pending ≡ contains v s.pending || (not (known s v) && str_eq nb v)
unfolding offer
pending-offer cur nb v s = ground (
  arith,
  contains-keys nb s.parent,
  contains-append v s.pending (nb ∷ []),
  contains-singleton v nb,
  eq_iff nb v,
)

pub pending-visit :
    (cur v : String) (nbs : List String) (s : Search)
    → contains v (visit cur nbs s).pending
      ≡ contains v s.pending || (not (known s v) && contains v nbs)
unfolding visit contains
pending-visit cur v [] s = ground arith
pending-visit cur v (nb ∷ nbs) s = ground (
  arith,
  pending-visit cur v nbs (offer cur s nb),
  pending-offer cur nb v s,
  get-offer cur nb v s,
)

Distinct-offer :
    (cur nb : String) (s : Search)
    → Distinct (keys s.parent)
    → Distinct (keys (offer cur s nb).parent)
unfolding offer
Distinct-offer cur nb s h = elim (Bool-cases (contains nb (keys s.parent))) [
  | inl e ↦ rw (e, offer) h
  | inr e ↦
      let k : keys (set nb (some cur) s.parent) ≡ keys s.parent ++ nb ∷ [] =
        ground (arith, keys-set nb (some cur) s.parent) in
      rw (e, offer) (rw k (Distinct-concat (keys s.parent) nb h e))
]

pub Distinct-visit :
    (cur : String) (nbs : List String) (s : Search)
    → Distinct (keys s.parent)
    → Distinct (keys (visit cur nbs s).parent)
unfolding visit
Distinct-visit cur [] s h = h
Distinct-visit cur (nb ∷ nbs) s h =
    Distinct-visit cur nbs (offer cur s nb) (Distinct-offer cur nb s h)

-- The nodes of a list that have not been found.
abbrev pub unseen : Search → List String → ℕ
unseen s [] = 0
unseen s (x ∷ xs) = (if known s x then 0 else 1) + unseen s xs

unseen-offer-le :
    (cur nb : String) (s : Search) (xs : List String) → unseen (offer cur s nb) xs ≤ unseen s xs
unseen-offer-le cur nb s [] = omega arith
unseen-offer-le cur nb s (x ∷ xs) =
    ground (arith, unseen-offer-le cur nb s xs, get-offer cur nb x s)

unseen-offer-new :
    (cur nb : String) (s : Search) (xs : List String)
    → known s nb ≡ false
    → contains nb xs ≡ true
    → unseen (offer cur s nb) xs < unseen s xs
unfolding contains
unseen-offer-new cur nb s [] h m = cc
unseen-offer-new cur nb s (x ∷ xs) h m = ground (
  arith,
  unseen-offer-new cur nb s xs h,
  unseen-offer-le cur nb s xs,
  get-offer cur nb x s,
  eq_iff x nb,
  eq_iff nb x,
)

-- What is left to do: the queue, and the ends of edges that have not been found.
abbrev pub work : Graph → Search → ℕ
work adj s = length s.pending + unseen s (flatten (values adj))

work-offer :
    (adj : Graph) (cur nb : String) (s : Search)
    → contains nb (flatten (values adj)) ≡ true
    → work adj (offer cur s nb) ≤ work adj s
work-offer adj cur nb s m = elim (Bool-cases (contains nb (keys s.parent))) [
  | inl e ↦ unfold offer in rw e (omega arith)
  | inr e ↦
      let fresh : known s nb ≡ false = ground (arith, contains-keys nb s.parent) in
      let fewer = unseen-offer-new cur nb s (flatten (values adj)) fresh m in
      let longer : length (offer cur s nb).pending ≡ length s.pending + 1 =
        unfold offer in rw e (omega (arith, length-append s.pending (nb ∷ []))) in
      omega arith
]

-- Every element of the first list is in the second.
abbrev pub Within : List String → List String → Type 0
Within [] ys = Unit
Within (x ∷ xs) ys = (contains x ys ≡ true) × Within xs ys

work-visit :
    (adj : Graph) (cur : String) (nbs : List String) (s : Search)
    → Within nbs (flatten (values adj))
    → work adj (visit cur nbs s) ≤ work adj s
unfolding visit
work-visit adj cur [] s h = omega arith
work-visit adj cur (nb ∷ nbs) s h =
    omega (arith, work-visit adj cur nbs (offer cur s nb) h.1, work-offer adj cur nb s h.0)

Within-self : (pre xs : List String) → Within xs (pre ++ xs)
unfolding contains
Within-self pre [] = tt
Within-self pre (x ∷ xs) = (
  ground (arith, contains-append x pre (x ∷ xs), eq_iff x x),
  rw (append_assoc pre (x ∷ []) xs) at (Within-self (pre ++ x ∷ []) xs),
)

Within-append_left : (xs ys zs : List String) → Within xs ys → Within xs (ys ++ zs)
Within-append_left [] ys zs h = tt
Within-append_left (x ∷ xs) ys zs h =
    (ground (arith, contains-append x ys zs), Within-append_left xs ys zs h.1)

Within-append_right : (xs ys zs : List String) → Within xs zs → Within xs (ys ++ zs)
Within-append_right [] ys zs h = tt
Within-append_right (x ∷ xs) ys zs h =
    (ground (arith, contains-append x ys zs), Within-append_right xs ys zs h.1)

neighbours-Within : (adj : Graph) (u : String) → Within (neighbours adj u) (flatten (values adj))
unfolding get
neighbours-Within [] u = tt
neighbours-Within ((j, ns) ∷ adj) u = elim (Bool-cases (str_eq j u)) [
  | inl e ↦ rw (e, get) (Within-append_left ns ns (flatten (values adj)) (Within-self [] ns))
  | inr e ↦
      rw (e, get)
        (Within-append_right (neighbours adj u) ns (flatten (values adj)) (neighbours-Within adj u))
]

pub unseen-le-length : (s : Search) (xs : List String) → unseen s xs ≤ length xs
unseen-le-length s [] = omega arith
unseen-le-length s (x ∷ xs) = ground (arith, unseen-le-length s xs)

unseen-same : (s t : Search) (xs : List String) → s.parent ≡ t.parent → unseen s xs ≡ unseen t xs
unseen-same s t [] e = refl
unseen-same s t (x ∷ xs) e = cc (e, unseen-same s t xs e)

-- The outer loop ends within its rounds.
pub grow_ends :
    (fuel : ℕ) (adj : Graph) (s : Search)
    → work adj s ≤ fuel
    → (parent : Dict (Option String)) × (grow fuel adj s ≡ ok parent)
unfolding grow
grow_ends zero adj s h = elim (List-cases s.pending) [
  | inl empty ↦ (s.parent, rw (empty, grow) refl)
  | inr (u, rest, e) ↦ absurd (omega (arith, ap length e))
]
grow_ends (suc fuel) adj s h = elim (List-cases s.pending) [
  | inl empty ↦ (s.parent, rw (empty, grow) refl)
  | inr (u, rest, e) ↦
      let s' : Search = record s { pending = rest } in
      let less = work-visit adj u (neighbours adj u) s' (neighbours-Within adj u) in
      let same = unseen-same s s' (flatten (values adj)) refl in
      let (parent, ends) =
        grow_ends fuel adj (visit u (neighbours adj u) s') (omega (arith, ap length e)) in
      (parent, rw (e, grow) ends)
]
