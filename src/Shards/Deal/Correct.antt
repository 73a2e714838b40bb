-- ===== src/Shards/Deal/Correct.antt =====
-- `main` deals the records round-robin.
use mathlib.Core.Path.{fun_ext}
use mini2_anu_asim.Prelude.{
  ℕ, zero, suc, ◌+◌, ◌-◌, ◌%◌, ◌≡◌, refl, sym, ap, ◌∙◌, List, [], ◌∷◌, ◌++◌, append-nil,
  append_assoc, arith, ◌==◌, ok, err, Result-cases, length, take, flatten, Bool-cases, inl, inr,
  Exc,
}
use mini2_anu_asim.Prelude.Int.{ℤ, pos, negsuc, leb_ℤ}
use mini2_anu_asim.Prelude.Text.{Unicode}
use mini2_anu_asim.Prelude.Floats.{Floats}
use mini2_anu_asim.Shards.Fields.{Row, row_to_record}
use mini2_anu_asim.Shards.Deal.{Shards, start, deal_one, deal}
use mini2_anu_asim.Shards.Deal.Steps.{update, shards, node_at_lem, write_lem}
use mini2_anu_asim.Shards.Deal.Shares.{limited, encoded, outcome, share}

-- The files and counters after dealing `parts` from the index `idx` on.
abbrev files_after : (ℕ → List ℕ) → ℕ → List (List ℕ) → ℕ → List ℕ
files_after f idx parts j = f j ++ flatten (share j idx parts)

abbrev counts_after : (ℕ → ℕ) → ℕ → List (List ℕ) → ℕ → ℕ
counts_after c idx parts j = c j + length (share j idx parts)

files_cons :
    (f : ℕ → List ℕ) (idx : ℕ) (p : List ℕ) (ps : List (List ℕ)) (j : ℕ)
    → files_after (update f (idx % 9) (f (idx % 9) ++ p)) (idx + 1) ps j
      ≡ files_after f idx (p ∷ ps) j
unfolding share
files_cons f idx p ps j = elim (Bool-cases (idx % 9 == j)) [
  | inl e ↦
      let same : idx % 9 ≡ j = ground arith in
      rw (e) (rw (append_assoc) (ap (λ (k : ℕ). f k ++ (p ++ flatten (share j (idx + 1) ps))) same))
  | inr e ↦ rw (e) refl
]

counts_cons :
    (c : ℕ → ℕ) (idx : ℕ) (p : List ℕ) (ps : List (List ℕ)) (j : ℕ)
    → counts_after (update c (idx % 9) (c (idx % 9) + 1)) (idx + 1) ps j
      ≡ counts_after c idx (p ∷ ps) j
unfolding share
counts_cons c idx p ps j = elim (Bool-cases (idx % 9 == j)) [
  | inl e ↦ let same : c (idx % 9) ≡ c j = ap c (ground arith) in rw (e) (omega (arith, same))
  | inr e ↦ rw (e) refl
]

module _ (u : Unicode) (fl : Floats) where
  deal_one-err :
      (idx : ℕ) (row : Row) (st : Shards) (e : Exc)
      → row_to_record u fl row ≡ err e
      → deal_one u fl idx row st ≡ err e
  unfolding deal_one
  deal_one-err idx row st e h = rw (node_at_lem idx, h) refl

  deal_one-ok :
      (idx : ℕ) (row : Row) (part : List ℕ) (f : ℕ → List ℕ) (c : ℕ → ℕ)
      → row_to_record u fl row ≡ ok part
      → deal_one u fl idx row (shards f c)
        ≡ ok (
            shards
              (update f (idx % 9) (f (idx % 9) ++ part))
              (update c (idx % 9) (c (idx % 9) + 1)))
  unfolding deal_one
  deal_one-ok idx row part f c h =
      rw (node_at_lem idx, h) (write_lem f c (idx % 9) part (omega arith))

  -- Without a limit.
  deal_all :
      (idx : ℕ) (rows : List Row) (f : ℕ → List ℕ) (c : ℕ → ℕ)
      → deal u fl (pos 0) idx rows (shards f c) ≡ (
        outcome u fl rows,
        shards (files_after f idx (encoded u fl rows)) (counts_after c idx (encoded u fl rows)),
      )
  unfolding deal outcome encoded
  deal_all idx [] f c =
      let ef : f ≡ files_after f idx [] = fun_ext (λ j. unfold share in sym (append-nil (f j))) in
      let ec : c ≡ counts_after c idx [] = fun_ext (λ j. unfold share in omega arith) in
      λ i. (ok tt, shards (ef i) (ec i))
  deal_all idx (row ∷ rows) f c = elim (Result-cases (row_to_record u fl row)) [
    | inl (e, h) ↦
        let ef : f ≡ files_after f idx [] = fun_ext (λ j. unfold share in sym (append-nil (f j))) in
        let ec : c ≡ counts_after c idx [] = fun_ext (λ j. unfold share in omega arith) in
        rw (deal_one-err idx row (shards f c) e h, h, deal, encoded, outcome)
          (λ i. (err e, shards (ef i) (ec i)))
    | inr (part, h) ↦
        let rest = encoded u fl rows in
        let f' = update f (idx % 9) (f (idx % 9) ++ part) in
        let c' = update c (idx % 9) (c (idx % 9) + 1) in
        let ef : files_after f' (idx + 1) rest ≡ files_after f idx (part ∷ rest) =
          fun_ext (files_cons f idx part rest) in
        let ec : counts_after c' (idx + 1) rest ≡ counts_after c idx (part ∷ rest) =
          fun_ext (counts_cons c idx part rest) in
        rw (deal_one-ok idx row part f c h, h, deal, encoded, outcome)
          (deal_all (idx + 1) rows f' c' ∙ (λ i. (outcome u fl rows, shards (ef i) (ec i))))
  ]

  deal_limit :
      (n idx : ℕ) (rows : List Row) (st : Shards)
      → deal u fl (pos (suc n)) idx rows st ≡ deal u fl (pos 0) idx (take (suc n - idx) rows) st
  unfolding deal
  deal_limit n idx [] st =
      elim (suc n - idx) as (λ k. (ok tt, st) ≡ deal u fl (pos 0) idx (take k []) st) [
        | zero ↦ refl
        | suc k ↦ refl
      ]
  deal_limit n idx (row ∷ rows) st = elim (Bool-cases (leb_ℤ (pos (suc n)) (pos idx))) [
    | inl e ↦ let past : suc n - idx ≡ 0 = ground arith in rw (e, deal, past) refl
    | inr e ↦
        let more : suc n - idx ≡ suc (suc n - (idx + 1)) = ground arith in
        rw (e, deal, more)
          (λ i. elim (deal_one u fl idx row st) [
            | err x ↦ (err x, st)
            | ok st' ↦ deal_limit n (idx + 1) rows st' i
          ])
  ]

  deal-start :
      (limit : ℤ) (rows : List Row)
      → deal u fl limit 0 rows start ≡ deal u fl (pos 0) 0 (limited limit rows) start
  unfolding deal
  deal-start (pos zero) rows = refl
  deal-start (pos (suc n)) rows =
      let all : suc n - 0 ≡ suc n = omega arith in rw all at (deal_limit n 0 rows start)
  deal-start (negsuc n) [] = refl
  deal-start (negsuc n) (row ∷ rows) = ground arith

  abbrev pub dealt : List Row → Shards
  dealt rows =
      shards (λ j. flatten (share j 0 (encoded u fl rows)))
        (λ j. length (share j 0 (encoded u fl rows)))

  pub deal_main :
      (limit : ℤ) (rows : List Row)
      → deal u fl limit 0 rows start
        ≡ (outcome u fl (limited limit rows), dealt (limited limit rows))
  deal_main limit rows =
      let zeros : counts_after (λ _. 0) 0 (encoded u fl (limited limit rows))
          ≡ (λ j. length (share j 0 (encoded u fl (limited limit rows)))) =
        fun_ext (λ j. omega arith) in
      deal-start limit rows ∙ deal_all 0 (limited limit rows) (λ _. []) (λ _. 0) ∙ (λ i. (
        outcome u fl (limited limit rows),
        shards (λ j. flatten (share j 0 (encoded u fl (limited limit rows)))) (zeros i),
      ))
