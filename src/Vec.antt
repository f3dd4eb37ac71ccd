-- ===== src/Vec.antt =====
-- include/qbt/vec.h and src/vec.c: `struct vec` with its buffer.
-- The buffer is a list of slots of `ns` bytes; a slot that no write has reached is `none`. Every
-- read and write of memory is checked against the buffer (`array_bounds`), so that a run with no
-- such fault touches only what `malloc` or `realloc` gave. Allocation succeeds, and a length stays
-- below 2^64: the source checks neither.
pub mod Slots
pub mod Refine
pub mod Ops
mod Tests
use qbt.Prelude.{
  ℕ, suc, ◌+◌, ◌-◌, ◌*◌, List, [], ◌∷◌, ◌++◌, Option, none, some, Result, ok, fault, ◌>>=◌,
  vec_bounds, array_bounds, leb, ltb, ◌==◌, length, get_elem?, set, take, drop, replicate,
  if◌then◌else◌,
}

pub record Vec {ℓ} (A : Type ℓ) : Type ℓ where
  pub n : ℕ
  pub s : ℕ
  pub buf : List (Option A)

module _ {ℓ} {A : Type ℓ} where
  abbrev pub slot : Option (Option A) → Result A
  slot (some (some a)) = ok a
  slot _ = fault array_bounds

  abbrev pub read : List (Option A) → ℕ → Result A
  read b i = slot (get_elem? b i)

  abbrev pub write : List (Option A) → ℕ → A → Result (List (Option A))
  write b i a = if ltb i (length b) then ok (set b i (some a)) else fault array_bounds

  -- `memmove` of `elems` slots from slot `i` to slot `i + 1`
  abbrev pub move_up : List (Option A) → ℕ → ℕ → List (Option A)
  move_up b i elems = take (suc i) b ++ (take elems (drop i b) ++ drop (suc (i + elems)) b)

  abbrev pub memmove_up : List (Option A) → ℕ → ℕ → Result (List (Option A))
  memmove_up b i elems =
      if leb (suc (i + elems)) (length b) then ok (move_up b i elems) else fault array_bounds

  unfoldable pub vec_create : Vec A
  vec_create = record { n = 0; s = 1; buf = none ∷ [] }

  unfoldable pub vec_reset : Vec A → Vec A
  vec_reset v = record v { n = 0 }

  unfoldable pub vec_at : Vec A → ℕ → Result A
  vec_at v i = if ltb i v.n then read v.buf i else fault vec_bounds

  -- A write through the pointer that `vec_at` returns.
  unfoldable pub vec_put : Vec A → ℕ → A → Result (Vec A)
  vec_put v i a =
      if ltb i v.n then (do b ← write v.buf i a; ok (record v { buf = b })) else fault vec_bounds

  unfoldable pub vec_pop : Vec A → Result (Vec A × A)
  vec_pop v =
      if v.n == 0
      then fault vec_bounds
      else do a ← read v.buf (v.n - 1); ok (record v { n = v.n - 1 }, a)

  -- `v->n++`, and the buffer doubled when it would be full
  unfoldable pub make_room : Vec A → Vec A
  make_room v =
      if leb v.s (suc v.n)
      then record { n = suc v.n; s = v.s * 2; buf = v.buf ++ replicate v.s none }
      else record v { n = suc v.n }

  unfoldable pub vec_append : Vec A → A → Result (Vec A)
  vec_append v a = let w = make_room v in do b ← write w.buf (w.n - 1) a; ok (record w { buf = b })

  unfoldable pub vec_insert : Vec A → A → ℕ → Result (Vec A)
  vec_insert v a i =
      if leb i v.n
      then if i == v.n
        then vec_append v a
        else (let w = make_room v in
            do b ← memmove_up w.buf i (w.n - i - 1); b' ← write b i a; ok (record w { buf = b' }))
      else fault vec_bounds
