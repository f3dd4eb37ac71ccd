-- ===== src/Vec/Slots.antt =====
-- The buffer of a vector: initialised slots in front, the rest behind them.
use Prim.Native.Nat.add
use qbt.Prelude.{
  ℕ, zero, suc, ◌+◌, ◌-◌, ◌<◌, ◌≡◌, refl, ap, List, [], ◌∷◌, ◌++◌, map, Option, some, true, arith,
  length, length-append, length-take, length-drop, length-set, set, take, drop, ok, leb, ltb,
}
use qbt.Seq
use qbt.Seq.{insert_at}
use qbt.Vec.{read, write, move_up, memmove_up}

module _ {ℓ} {A : Type ℓ} where
  abbrev pub slots : List A → List (Option A) → List (Option A)
  slots xs rest = map some xs ++ rest

  pub length-slots :
      (xs : List A) (rest : List (Option A)) → length (slots xs rest) ≡ length xs + length rest
  length-slots [] rest = omega arith
  length-slots (x ∷ xs) rest = omega (arith, length-slots xs rest)

  pub read-slots :
      (xs : List A) (rest : List (Option A)) (i : ℕ)
      → i < length xs
      → read (slots xs rest) i ≡ Seq.vec_at xs i
  read-slots [] rest i h = absurd (omega arith)
  read-slots (x ∷ xs) rest zero h = refl
  read-slots (x ∷ xs) rest (suc i) h = read-slots xs rest i (omega arith)

  pub set-slots :
      (xs : List A) (rest : List (Option A)) (i : ℕ) (a : A)
      → i < length xs
      → set (slots xs rest) i (some a) ≡ slots (set xs i a) rest
  set-slots [] rest i a h = absurd (omega arith)
  set-slots (x ∷ xs) rest zero a h = refl
  set-slots (x ∷ xs) rest (suc i) a h = ap (λ t. some x ∷ t) (set-slots xs rest i a (omega arith))

  pub set-slots_end :
      (xs : List A) (r : Option A) (rest : List (Option A)) (a : A)
      → set (slots xs (r ∷ rest)) (length xs) (some a) ≡ slots (xs ++ a ∷ []) rest
  set-slots_end [] r rest a = refl
  set-slots_end (x ∷ xs) r rest a = ap (λ t. some x ∷ t) (set-slots_end xs r rest a)

  take-slots :
      (xs : List A) (rest : List (Option A)) → take (length xs) (slots xs rest) ≡ map some xs
  take-slots [] rest = refl
  take-slots (x ∷ xs) rest = ap (λ t. some x ∷ t) (take-slots xs rest)

  drop-slots :
      (xs : List A) (r : Option A) (rest : List (Option A))
      → drop (suc (length xs)) (slots xs (r ∷ rest)) ≡ rest
  drop-slots [] r rest = refl
  drop-slots (x ∷ xs) r rest = drop-slots xs r rest

  -- `vec_insert` moves the tail up by one slot and writes the gap.
  pub move_up-insert_at :
      (xs : List A) (r : Option A) (rest : List (Option A)) (i : ℕ) (a : A)
      → i < length xs
      → set (move_up (slots xs (r ∷ rest)) i (length xs - i)) i (some a)
        ≡ slots (insert_at xs a i) rest
  move_up-insert_at [] r rest i a h = absurd (omega arith)
  move_up-insert_at (x ∷ xs) r rest zero a h =
      let sub_zero : suc (length xs) - 0 ≡ suc (length xs) = omega arith in
      let add_left : 0 + suc (length xs) ≡ suc (length xs) = omega arith in
      rw (sub_zero, add_left, take-slots xs (r ∷ rest), drop-slots xs r rest)
  move_up-insert_at (x ∷ xs) r rest (suc i) a h =
      let left : suc (length xs) - suc i ≡ length xs - i = omega arith in
      rw (left, add.suc) (ap (λ t. some x ∷ t) (move_up-insert_at xs r rest i a (omega arith)))

  -- The same as checked accesses, where they are in bounds.
  pub write-slots :
      (xs : List A) (rest : List (Option A)) (i : ℕ) (a : A)
      → i < length xs
      → write (slots xs rest) i a ≡ ok (slots (set xs i a) rest)
  write-slots xs rest i a h =
      let inside : ltb i (length (slots xs rest)) ≡ true = ground (arith, length-slots xs rest) in
      rw (inside, set-slots xs rest i a h)

  pub write-slots_end :
      (xs : List A) (r : Option A) (rest : List (Option A)) (a : A)
      → write (slots xs (r ∷ rest)) (length xs) a ≡ ok (slots (xs ++ a ∷ []) rest)
  write-slots_end xs r rest a =
      let inside : ltb (length xs) (length (slots xs (r ∷ rest))) ≡ true =
        ground (arith, length-slots xs (r ∷ rest)) in
      rw (inside, set-slots_end xs r rest a)

  pub memmove_up-slots :
      (xs : List A) (r : Option A) (rest : List (Option A)) (i : ℕ)
      → i < length xs
      → memmove_up (slots xs (r ∷ rest)) i (length xs - i)
        ≡ ok (move_up (slots xs (r ∷ rest)) i (length xs - i))
  memmove_up-slots xs r rest i h =
      let inside : leb (suc (i + (length xs - i))) (length (slots xs (r ∷ rest))) ≡ true =
        ground (arith, length-slots xs (r ∷ rest)) in
      rw inside

  pub length-insert_at :
      (xs : List A) (i : ℕ) (a : A) → i < length xs → length (insert_at xs a i) ≡ suc (length xs)
  length-insert_at xs i a h =
      omega (arith, length-append (take i xs) (a ∷ drop i xs), length-take i xs, length-drop i xs)

  pub write-move_up :
      (xs : List A) (r : Option A) (rest : List (Option A)) (i : ℕ) (a : A)
      → i < length xs
      → write (move_up (slots xs (r ∷ rest)) i (length xs - i)) i a
        ≡ ok (slots (insert_at xs a i) rest)
  write-move_up xs r rest i a h =
      let moved = move_up (slots xs (r ∷ rest)) i (length xs - i) in
      let filled = move_up-insert_at xs r rest i a h in
      let inside : ltb i (length moved) ≡ true = ground (
        arith,
        length-set moved i (some a),
        ap length filled,
        length-slots (insert_at xs a i) rest,
        length-insert_at xs i a h,
      ) in
      rw (inside, filled)
