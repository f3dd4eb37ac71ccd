-- ===== src/Seq.antt =====
-- include/qbt/vec.h as its users see it: a vector is the list of its elements. (`Vec` has the
-- representation, and shows that it carries these operations out.)
use qbt.Prelude.{
  ℕ, List, [], ◌∷◌, ◌++◌, Result, ok, fault, ◌>>=◌, vec_bounds, demand, leb, ltb, length, get_elem?,
  set, take, drop, if◌then◌else◌,
}

module _ {ℓ} {A : Type ℓ} where
  -- `*(type *)vec_at(&v, i)` as a value
  abbrev pub vec_at : List A → ℕ → Result A
  vec_at xs i = demand vec_bounds (get_elem? xs i)

  -- `*(type *)vec_at(&v, i) = x`
  abbrev pub vec_put : List A → ℕ → A → Result (List A)
  vec_put xs i x = if ltb i (length xs) then ok (set xs i x) else fault vec_bounds

  abbrev pub vec_append : List A → A → List A
  vec_append xs x = xs ++ x ∷ []

  abbrev pub insert_at : List A → A → ℕ → List A
  insert_at xs x i = take i xs ++ x ∷ drop i xs

  abbrev pub vec_insert : List A → A → ℕ → Result (List A)
  vec_insert xs x i = if leb i (length xs) then ok (insert_at xs x i) else fault vec_bounds

  -- The elements but the last, and the last.
  unfoldable pub vec_pop : List A → Result (List A × A)
  vec_pop [] = fault vec_bounds
  vec_pop (x ∷ []) = ok ([], x)
  vec_pop (x ∷ y ∷ ys) = do (zs, z) ← vec_pop (y ∷ ys); ok (x ∷ zs, z)
