-- ===== src/Node/Payload/Load.antt =====
-- A loaded payload holds whole records: the first shard file found, less a partial last record.
use mini2_anu_asim.Prelude.{
  ℕ, ◌-◌, ◌*◌, ◌/◌, ◌%◌, ◌≡◌, refl, ◌∙◌, ap, String, Option, none, some, List, [], ◌∷◌, ◌++◌, arith,
  ◌==◌, length, take, length-take, All, inl, inr, Bool-cases, Option-cases,
}
use mini2_anu_asim.Node.Payload.{Files, shard_file, trim, load_from, load_shard_payload, roots}

take-length {ℓ} : {A : Type ℓ} (xs : List A) → take (length xs) xs ≡ xs
take-length [] = refl
take-length (x ∷ xs) = ap (λ t. x ∷ t) (take-length xs)

-- `trim` keeps as many whole records as there are.
pub trim_lem : (bytes : List ℕ) → trim bytes ≡ take (20 * (length bytes / 20)) bytes
unfolding trim
trim_lem bytes = elim (Bool-cases (length bytes % 20 == 0)) [
  | inl e ↦
      let whole : 20 * (length bytes / 20) ≡ length bytes = ground arith in
      rw (e, whole) (rw (take-length bytes) refl)
  | inr e ↦
      let whole : 20 * (length bytes / 20) ≡ length bytes - length bytes % 20 = omega arith in
      rw (e, whole) refl
]

module _ (fs : Files) (node : String) where
  abbrev pub Missing : String → Type 0
  Missing root = fs (shard_file node root) ≡ none

  -- The first directory that has the shard file gives the payload: its whole records, also where they
  -- are none; if no directory has the file, the payload is empty.
  pub load_from_first :
      (pre post : List String) (root : String) (bytes : List ℕ)
      → All Missing pre
      → fs (shard_file node root) ≡ some bytes
      → load_from fs node (pre ++ root ∷ post) ≡ take (20 * (length bytes / 20)) bytes
  unfolding load_from
  load_from_first [] post root bytes h e = rw (e, load_from) (trim_lem bytes)
  load_from_first (r ∷ pre) post root bytes h e =
      rw (h.0, load_from) (load_from_first pre post root bytes h.1 e)

  load_from_none : (rs : List String) → All Missing rs → load_from fs node rs ≡ []
  unfolding load_from
  load_from_none [] h = refl
  load_from_none (r ∷ rs) h = rw (h.0, load_from) (load_from_none rs h.1)

  -- Whatever the files hold, the payload is a sequence of whole records.
  load_from_whole : (rs : List String) → length (load_from fs node rs) % 20 ≡ 0
  unfolding load_from
  load_from_whole [] = refl
  load_from_whole (r ∷ rs) = elim (Option-cases (fs (shard_file node r))) [
    | inl e ↦ rw (e, load_from) (load_from_whole rs)
    | inr (bytes, e) ↦
        rw (e, load_from)
          (rw (trim_lem bytes) (omega (arith, length-take (20 * (length bytes / 20)) bytes)))
  ]

  -- Of the directories in their order, the first that has the node's shard file gives the payload:
  -- the whole records of that file.
  pub load_shard_payload_first :
      (env : Option String) (pre post : List String) (root : String) (bytes : List ℕ)
      → roots env ≡ pre ++ root ∷ post
      → All Missing pre
      → fs (shard_file node root) ≡ some bytes
      → load_shard_payload fs env node ≡ take (20 * (length bytes / 20)) bytes
  unfolding load_shard_payload
  load_shard_payload_first env pre post root bytes e h found =
      ap (load_from fs node) e ∙ load_from_first pre post root bytes h found

  pub length-load_shard_payload :
      (env : Option String) → length (load_shard_payload fs env node) % 20 ≡ 0
  unfolding load_shard_payload
  length-load_shard_payload env = load_from_whole (roots env)
