-- ===== src/Leader/Pages/Progress.antt =====
-- Where the pages of a payload end, and how they cover it.
use mini2_anu_asim.Prelude.{
  ℕ, zero, suc, ◌+◌, ◌-◌, ◌*◌, ◌/◌, ◌≤◌, ◌<◌, ◌≡◌, refl, ap, sym, List, [], ◌∷◌, ◌++◌, arith,
  length, take, drop, length-take,
}
use mini2_anu_asim.Prelude.Int.{ℤ, pos}
use mini2_anu_asim.Leader.Pages.{chunk_bytes, requested, page_end, slice, max_chunk_bytes}

-- Whatever the client asks for, a chunk holds a record at least and a megabyte at most.
pub chunk_bytes_bounds : (size : ℤ) → (20 ≤ chunk_bytes size) × (chunk_bytes size ≤ max_chunk_bytes)
unfolding chunk_bytes
chunk_bytes_bounds size = (omega arith, omega arith)

-- A size between these bounds is used as it is.
pub chunk_bytes_kept : (n : ℕ) → 20 ≤ n → n ≤ max_chunk_bytes → chunk_bytes (pos n) ≡ n
unfolding chunk_bytes requested
chunk_bytes_kept zero h k = absurd (omega arith)
chunk_bytes_kept (suc n) h k = omega arith

module _ (start chunk total : ℕ) where
  -- A page ends behind its start and not behind the payload, and a page that is not the last holds
  -- as many whole records as fit into the chunk.
  pub page_end_bounds :
      20 ≤ chunk
      → start < total
      → (start < page_end start chunk total)
        × (page_end start chunk total ≤ total)
        × (page_end start chunk total ≤ start + chunk)
  unfolding page_end
  page_end_bounds h k = ground arith

  pub page_end_full :
      20 ≤ chunk
      → page_end start chunk total < total
      → page_end start chunk total ≡ start + chunk / 20 * 20
  unfolding page_end
  page_end_full h k = ground arith

  pub page_end_last :
      20 ≤ chunk
      → total ≤ start + chunk / 20 * 20
      → start ≤ total
      → page_end start chunk total ≡ total
  unfolding page_end
  page_end_last h k l = ground arith

module _ {ℓ} {A : Type ℓ} where
  pub length-drop : (n : ℕ) (xs : List A) → length (drop n xs) ≡ length xs - n
  length-drop zero xs = omega arith
  length-drop (suc n) [] = omega arith
  length-drop (suc n) (x ∷ xs) = omega (arith, length-drop n xs)

  pub take-append_drop : (n : ℕ) (xs : List A) → take n xs ++ drop n xs ≡ xs
  take-append_drop zero xs = refl
  take-append_drop (suc n) [] = refl
  take-append_drop (suc n) (x ∷ xs) = ap (λ r. x ∷ r) (take-append_drop n xs)

  pub drop-nil : (n : ℕ) → drop {A = A} n [] ≡ []
  drop-nil zero = refl
  drop-nil (suc n) = refl

  pub drop-drop : (m n k : ℕ) (xs : List A) → m + n ≡ k → drop n (drop m xs) ≡ drop k xs
  drop-drop zero n k xs e = let e' : n ≡ k = omega arith in rw e' refl
  drop-drop (suc m) n zero xs e = absurd (omega arith)
  drop-drop (suc m) n (suc k) [] e = drop-nil n
  drop-drop (suc m) n (suc k) (x ∷ xs) e = drop-drop m n k xs (omega arith)

  pub drop_all : (n : ℕ) (xs : List A) → length xs ≤ n → drop n xs ≡ []
  drop_all zero [] h = refl
  drop_all zero (x ∷ xs) h = absurd (omega arith)
  drop_all (suc n) [] h = refl
  drop_all (suc n) (x ∷ xs) h = drop_all n xs (omega arith)

-- A page and what comes behind it are what was left.
pub slice-append_drop {ℓ} :
    {A : Type ℓ} (start stop : ℕ) (xs : List A)
    → start ≤ stop
    → slice start stop xs ++ drop stop xs ≡ drop start xs
slice-append_drop start stop xs h =
    rw (sym (drop-drop start (stop - start) stop xs (omega arith)))
      (take-append_drop (stop - start) (drop start xs))

pub length-slice {ℓ} :
    {A : Type ℓ} (start stop : ℕ) (xs : List A)
    → start ≤ stop
    → stop ≤ length xs
    → length (slice start stop xs) ≡ stop - start
length-slice start stop xs h k =
    omega (arith, length-take (stop - start) (drop start xs), length-drop start xs)
