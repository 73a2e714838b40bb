-- ===== src/Client/Decode.antt =====
-- Decoding page by page reads what decoding the whole payload reads.
use mini2_anu_asim.Prelude.{
  ℕ, zero, suc, ◌+◌, ◌*◌, ◌/◌, ◌%◌, ◌≤◌, ◌≡◌, refl, ap, List, [], ◌∷◌, ◌++◌, arith, length, take,
  drop, length-append,
}
use mini2_anu_asim.Struct.Layout.{read_loop, read_records}
use mini2_anu_asim.Leader.Pages.Progress.{length-drop}

module _ {ℓ} {A : Type ℓ} where
  take-append_le : (n : ℕ) (xs ys : List A) → n ≤ length xs → take n (xs ++ ys) ≡ take n xs
  take-append_le zero xs ys h = refl
  take-append_le (suc n) [] ys h = absurd (omega arith)
  take-append_le (suc n) (x ∷ xs) ys h = ap (λ r. x ∷ r) (take-append_le n xs ys (omega arith))

  drop-append_le : (n : ℕ) (xs ys : List A) → n ≤ length xs → drop n (xs ++ ys) ≡ drop n xs ++ ys
  drop-append_le zero xs ys h = refl
  drop-append_le (suc n) [] ys h = absurd (omega arith)
  drop-append_le (suc n) (x ∷ xs) ys h = drop-append_le n xs ys (omega arith)

read_loop-append :
    (n m : ℕ) (xs ys : List ℕ)
    → length xs ≡ 20 * n
    → read_loop (n + m) (xs ++ ys) ≡ read_loop n xs ++ read_loop m ys
unfolding read_loop
read_loop-append zero m [] ys h = let e : 0 + m ≡ m = omega arith in rw e refl
read_loop-append zero m (x ∷ xs) ys h = absurd (omega arith)
read_loop-append (suc n) m xs ys h =
    let e : suc n + m ≡ suc (n + m) = omega arith in
    let ih = read_loop-append n m (drop 20 xs) ys (omega (arith, length-drop 20 xs)) in
    rw (e, take-append_le 20 xs ys (omega arith), drop-append_le 20 xs ys (omega arith), ih) refl

pub read_records-append :
    (xs ys : List ℕ)
    → length xs % 20 ≡ 0
    → read_records (xs ++ ys) ≡ read_records xs ++ read_records ys
unfolding read_records
read_records-append xs ys h =
    let n : length (xs ++ ys) / 20 ≡ length xs / 20 + length ys / 20 =
      omega (arith, length-append xs ys) in
    rw n (read_loop-append (length xs / 20) (length ys / 20) xs ys (omega arith))
