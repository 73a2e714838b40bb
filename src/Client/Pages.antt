-- ===== src/Client/Pages.antt =====
-- The pages of a payload, as the client reads them one behind the other.
use mini2_anu_asim.Prelude.{
  ℕ, zero, suc, ◌+◌, ◌-◌, ◌*◌, ◌/◌, ◌%◌, ◌≤◌, ◌<◌, ◌≡◌, refl, ap, sym, ◌∙◌, true, List, ◌++◌, arith,
  ltb, length, drop, append-nil, append_assoc, ◌⊎◌, inl, inr, Bool-cases,
}
use mini2_anu_asim.Struct.Layout.{read_records}
use mini2_anu_asim.Leader.Pages.{page_end, page, slice}
use mini2_anu_asim.Leader.Pages.Progress.{length-slice, slice-append_drop, drop_all}
use mini2_anu_asim.Client.{Tally, decode, summary}
use mini2_anu_asim.Client.Decode.{read_records-append}

-- The whole records that a chunk holds, in bytes.
abbrev pub step : ℕ → ℕ
step chunk = chunk / 20 * 20

pub zero_or_pos : (n : ℕ) → (n ≡ 0) ⊎ (0 < n)
zero_or_pos zero = inl refl
zero_or_pos (suc n) = inr (omega arith)

-- The pages of a payload: one for each `step` that is begun, and one for the empty payload.
unfoldable pub page_count : ℕ → ℕ → ℕ
page_count chunk total = suc ((total - 1) / step chunk)

pub page_end_more :
    (start chunk total : ℕ)
    → 20 ≤ chunk
    → start % 20 ≡ 0
    → total % 20 ≡ 0
    → start + step chunk < total
    → page_end start chunk total ≡ start + step chunk
unfolding page_end
page_end_more start chunk total h p q k = ground arith

decode-page :
    (start stop : ℕ) (full : List ℕ)
    → start < length full
    → decode (page start stop full) ≡ read_records (slice start stop full)
unfolding page
decode-page start stop full h =
    let e : ltb start (length full) ≡ true = ground arith in rw e (append-nil _)

slice-rest :
    (start : ℕ) (full : List ℕ)
    → start ≤ length full
    → slice start (length full) full ≡ drop start full
slice-rest start full h =
    sym (append-nil (slice start (length full) full))
    ∙ (ap (λ r. slice start (length full) full ++ r)
          (sym (drop_all (length full) full (omega arith)))
        ∙ slice-append_drop start (length full) full h)

-- The page behind which nothing is left.
pub decode-last :
    (start : ℕ) (full : List ℕ)
    → start ≤ length full
    → decode (page start (length full) full) ≡ read_records (drop start full)
decode-last start full h = elim (Bool-cases (ltb start (length full))) [
  | inl e ↦
      decode-page start (length full) full (ground arith)
      ∙ ap read_records (slice-rest start full h)
  | inr e ↦ unfold page read_records in rw (e, drop_all start full (ground arith)) refl
]

-- What a page adds to the tally, before the pages that follow.
pub counted_page :
    (full : List ℕ) (start stop : ℕ) (t : Tally) (n : ℕ)
    → start ≤ stop
    → (stop - start) % 20 ≡ 0
    → stop < length full
    → summary (record {
      records = (t.records ++ decode (page start stop full)) ++ read_records (drop stop full);
      call_count = t.call_count + 1 + suc n;
    })
      ≡ summary (record {
        records = t.records ++ read_records (drop start full);
        call_count = t.call_count + suc (suc n);
      })
counted_page full start stop t n h w k =
    let size = length-slice start stop full h (omega arith) in
    let count : t.call_count + 1 + suc n ≡ t.call_count + suc (suc n) = omega arith in
    let split =
      read_records-append (slice start stop full) (drop stop full) (omega (arith, size)) in
    rw
      (
        decode-page start stop full (omega arith),
        count,
        append_assoc,
        ← split,
        slice-append_drop start stop full h,
      )
      refl
