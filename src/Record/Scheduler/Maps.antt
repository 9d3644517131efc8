-- ===== src/Record/Scheduler/Maps.antt =====
-- `std::map` from channel ids: the entries in the order of their ids.
use libnx.Common.{
  ℕ, ◌==◌, ◌≡◌, refl, false, List, [], ◌∷◌, Option, none, some, arith, ltb, if◌then◌else◌,
  Bool-cases, inl, inr,
}

abbrev pub Table {ℓ} : Type ℓ → Type ℓ
Table A = List (ℕ × A)

module _ {ℓ} {A : Type ℓ} where
  unfoldable pub find : ℕ → Table A → Option A
  find id [] = none
  find id ((k, a) ∷ t) = let rest = find id t in if k == id then some a else rest

  -- `map[id] = a`
  unfoldable pub put : ℕ → A → Table A → Table A
  put id a [] = (id, a) ∷ []
  put id a ((k, b) ∷ t) =
      let rest = put id a t in
      if k == id then (k, a) ∷ t else if ltb id k then (id, a) ∷ (k, b) ∷ t else (k, b) ∷ rest

  pub find-put : (id : ℕ) (a : A) (t : Table A) → find id (put id a t) ≡ some a
  unfolding find put
  find-put id a [] = ground arith
  find-put id a ((k, b) ∷ t) = ground (arith, find-put id a t)

  -- The other ids keep their entries.
  pub find-put_other :
      (id other : ℕ) (a : A) (t : Table A)
      → other == id ≡ false
      → find other (put id a t) ≡ find other t
  unfolding find put
  find-put_other id other a [] h = let apart : id == other ≡ false = ground arith in rw apart refl
  find-put_other id other a ((k, b) ∷ t) h =
      let apart : id == other ≡ false = ground arith in
      elim (Bool-cases (k == id)) [
        | inl same ↦ let apart_k : k == other ≡ false = ground arith in rw (same, apart_k) refl
        | inr next ↦ elim (Bool-cases (ltb id k)) [
          | inl before ↦ rw (next, before, apart) refl
          | inr behind ↦ elim (Bool-cases (k == other)) [
            | inl found ↦ rw (next, behind, found) refl
            | inr further ↦ rw (next, behind, further) (find-put_other id other a t h)
          ]
        ]
      ]
