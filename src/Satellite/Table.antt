-- ===== src/Satellite/Table.antt =====
-- The map from descriptor numbers to open files, `map[uintptr]file`, and its laws.
use dockerfuse.Base.{ℕ, ◌≡◌, Option, none, some, List, [], ◌∷◌, arith, ◌==◌, if◌then◌else◌}

abbrev pub Table {ℓ} : Type ℓ → Type ℓ
Table A = List (ℕ × A)

module _ {ℓ} {A : Type ℓ} where
  -- v, ok := m[k]
  unfoldable pub find : Table A → ℕ → Option A
  find [] k = none
  find ((j, v) ∷ m) k = if j == k then some v else find m k

  -- delete(m, k)
  unfoldable pub remove : Table A → ℕ → Table A
  remove [] k = []
  remove ((j, v) ∷ m) k = let rest = remove m k in if j == k then rest else (j, v) ∷ rest

  -- m[k] = v. An older value of the key is dropped.
  unfoldable pub store : Table A → ℕ → A → Table A
  store m k v = (k, v) ∷ remove m k

  pub find-remove :
      (m : Table A) (k j : ℕ) → find (remove m k) j ≡ (if j == k then none else find m j)
  unfolding find remove
  find-remove [] k j = ground arith
  find-remove ((i, v) ∷ m) k j = ground (arith, find-remove m k j)

  pub find-store :
      (m : Table A) (k j : ℕ) (v : A) → find (store m k v) j ≡ (if j == k then some v else find m j)
  unfolding store find
  find-store m k j v = ground (arith, find-remove m k j)
