-- ===== src/Vec/Ops.antt =====
-- Any sequence of vector operations: the vector of vec.c answers as the list does.
use qbt.Prelude.{
  ℕ, zero, suc, ◌+◌, ◌≤◌, ◌≡◌, refl, ap, sym, ◌∙◌, inl, inr, List, [], ◌∷◌, ◌++◌, Option, none,
  some, true, false, arith, length, length-set, Result, ok, fault, ◌>>=◌, vec_bounds, leb, ltb,
  ◌==◌, Bool-cases,
}
use qbt.Seq
use qbt.Seq.{insert_at}
use qbt.Vec.{Vec, vec_create, vec_reset, vec_at, vec_put, vec_pop, vec_append, vec_insert}
use qbt.Vec.Slots.{length-slots, read-slots, write-slots}
use qbt.Vec.Refine.{
  Holds, vec_create-Holds, vec_append-Holds, vec_insert_inside, Snoc, empty, ends, snoc,
  vec_pop-append, vec_pop-Holds,
}

pub data Op (A : Type 0) : Type 0 where
  append : A → Op A
  insert : A → ℕ → Op A
  put : ℕ → A → Op A
  at : ℕ → Op A
  pop : Op A
  reset : Op A

-- A step answers with the element that it reads, if it reads one.
abbrev answer : {S A : Type 0} → Result S → Result (S × Option A)
answer (ok s) = ok (s, none)
answer (fault e) = fault e

abbrev answer_with : {S A : Type 0} → S → Result A → Result (S × Option A)
answer_with s (ok a) = ok (s, some a)
answer_with s (fault e) = fault e

abbrev answer_pair : {S A : Type 0} → Result (S × A) → Result (S × Option A)
answer_pair (ok (s, a)) = ok (s, some a)
answer_pair (fault e) = fault e

module _ {A : Type 0} where
  abbrev pub step : Op A → Vec A → Result (Vec A × Option A)
  step (append a) v = answer (vec_append v a)
  step (insert a i) v = answer (vec_insert v a i)
  step (put i a) v = answer (vec_put v i a)
  step (at i) v = answer_with v (vec_at v i)
  step pop v = answer_pair (vec_pop v)
  step reset v = ok (vec_reset v, none)

  abbrev pub step_list : Op A → List A → Result (List A × Option A)
  step_list (append a) xs = ok (Seq.vec_append xs a, none)
  step_list (insert a i) xs = answer (Seq.vec_insert xs a i)
  step_list (put i a) xs = answer (Seq.vec_put xs i a)
  step_list (at i) xs = answer_with xs (Seq.vec_at xs i)
  step_list pop xs = answer_pair (Seq.vec_pop xs)
  step_list reset xs = ok ([], none)

  unfoldable pub run : List (Op A) → Vec A → Result (Vec A × List (Option A))
  run [] v = ok (v, [])
  run (o ∷ os) v = do (w, a) ← step o v; (u, as') ← run os w; ok (u, a ∷ as')

  unfoldable pub run_list : List (Op A) → List A → Result (List A × List (Option A))
  run_list [] xs = ok (xs, [])
  run_list (o ∷ os) xs = do (ys, a) ← step_list o xs; (zs, as') ← run_list os ys; ok (zs, a ∷ as')

  -- The same answers, or the same fault; a vector that is left holds the list that is left.
  abbrev pub Agrees : {B : Type 0} → Result (Vec A × B) → Result (List A × B) → Type 0
  Agrees (ok (v, b)) (ok (xs, c)) = Holds v xs × (b ≡ c)
  Agrees (fault e) (fault d) = e ≡ d
  Agrees _ _ = ⊥

  insert_at-length : (xs : List A) (a : A) → insert_at xs a (length xs) ≡ xs ++ a ∷ []
  insert_at-length [] a = refl
  insert_at-length (x ∷ xs) a = ap (λ t. x ∷ t) (insert_at-length xs a)

  insert-Agrees :
      (v : Vec A) (xs : List A) (a : A) (i : ℕ)
      → Holds v xs
      → Agrees (step (insert a i) v) (step_list (insert a i) xs)
  unfolding vec_insert
  insert-Agrees v xs a i h = elim (Bool-cases (leb i (length xs))) [
    | inr outside ↦
        let outside' : leb i v.n ≡ false = ground (arith, h.count) in rw (outside, outside')
    | inl inside ↦ elim (Bool-cases (i == length xs)) [
      | inl end ↦
          let inside' : leb i v.n ≡ true = ground (arith, h.count) in
          let end' : (i == v.n) ≡ true = ground (arith, h.count) in
          let at_end : i ≡ length xs = ground arith in
          let (w, done, holds) = vec_append-Holds v xs a h in
          rw (inside, inside', end', done, at_end, insert_at-length xs a) (holds, refl)
      | inr short ↦
          let (w, done, holds) = vec_insert_inside v xs a i h (ground arith) in
          rw (inside, done) (holds, refl)
    ]
  ]

  put-Agrees :
      (v : Vec A) (xs : List A) (i : ℕ) (a : A)
      → Holds v xs
      → Agrees (step (put i a) v) (step_list (put i a) xs)
  unfolding vec_put
  put-Agrees v xs i a h = elim (Bool-cases (ltb i (length xs))) [
    | inr outside ↦
        let outside' : ltb i v.n ≡ false = ground (arith, h.count) in rw (outside, outside')
    | inl inside ↦
        let inside' : ltb i v.n ≡ true = ground (arith, h.count) in
        rw (inside, inside', h.buffer, write-slots xs h.spare i a (ground arith))
          (
            record {
              spare = h.spare;
              buffer = refl;
              count = omega (arith, h.count, length-set xs i a);
              size = omega (arith, h.size, length-set xs i a);
              room = h.room;
            },
            refl,
          )
  ]

  answer_with-Agrees :
      (v : Vec A) (xs : List A) (r : Result A)
      → Holds v xs
      → Agrees (answer_with v r) (answer_with xs r)
  answer_with-Agrees v xs (ok a) h = (h, refl)
  answer_with-Agrees v xs (fault e) h = refl

  vec_at_outside : (xs : List A) (i : ℕ) → length xs ≤ i → Seq.vec_at xs i ≡ fault vec_bounds
  vec_at_outside [] i h = refl
  vec_at_outside (x ∷ xs) zero h = absurd (omega arith)
  vec_at_outside (x ∷ xs) (suc i) h = vec_at_outside xs i (omega arith)

  vec_at-eq : (v : Vec A) (xs : List A) (i : ℕ) → Holds v xs → vec_at v i ≡ Seq.vec_at xs i
  unfolding vec_at
  vec_at-eq v xs i h = elim (Bool-cases (ltb i (length xs))) [
    | inr outside ↦
        let outside' : ltb i v.n ≡ false = ground (arith, h.count) in
        rw outside' (sym (vec_at_outside xs i (ground arith)))
    | inl inside ↦
        let inside' : ltb i v.n ≡ true = ground (arith, h.count) in
        rw (inside', h.buffer) (read-slots xs h.spare i (ground arith))
  ]

  at-Agrees :
      (v : Vec A) (xs : List A) (i : ℕ) → Holds v xs → Agrees (step (at i) v) (step_list (at i) xs)
  at-Agrees v xs i h = rw (vec_at-eq v xs i h) (answer_with-Agrees v xs (Seq.vec_at xs i) h)

  pop-Agrees :
      (v : Vec A) {xs : List A} → Snoc xs → Holds v xs → Agrees (step pop v) (step_list pop xs)
  unfolding vec_pop Seq.vec_pop
  pop-Agrees v empty h = let none_left : (v.n == 0) ≡ true = ground (arith, h.count) in rw none_left
  pop-Agrees v (ends zs z) h =
      let (w, done, holds) = vec_pop-Holds v zs z h in rw (done, vec_pop-append zs z) (holds, refl)

  reset-Holds : (v : Vec A) (xs : List A) → Holds v xs → Holds (vec_reset v) []
  unfolding vec_reset
  reset-Holds v xs h =
      let all : length v.buf ≡ length xs + length h.spare =
        ap length h.buffer ∙ length-slots xs h.spare in
      record {
        spare = v.buf;
        buffer = refl;
        count = refl;
        size = omega (arith, h.size);
        room = omega (arith, h.room);
      }

  step-Agrees :
      (o : Op A) (v : Vec A) (xs : List A) → Holds v xs → Agrees (step o v) (step_list o xs)
  step-Agrees (append a) v xs h =
      let (w, done, holds) = vec_append-Holds v xs a h in rw done (holds, refl)
  step-Agrees (insert a i) v xs h = insert-Agrees v xs a i h
  step-Agrees (put i a) v xs h = put-Agrees v xs i a h
  step-Agrees (at i) v xs h = at-Agrees v xs i h
  step-Agrees pop v xs h = pop-Agrees v (snoc xs) h
  step-Agrees reset v xs h = (reset-Holds v xs h, refl)

  Agrees-bind :
      {B C : Type 0} (m : Result (Vec A × B)) (n : Result (List A × B))
      (f : Vec A × B → Result (Vec A × C)) (g : List A × B → Result (List A × C))
      → Agrees m n
      → ((v : Vec A) (xs : List A) (b : B) → Holds v xs → Agrees (f (v, b)) (g (xs, b)))
      → Agrees (m >>= f) (n >>= g)
  Agrees-bind (ok (v, b)) (ok (xs, c)) f g (h, e) k = rw (← e) (k v xs b h)
  Agrees-bind (ok _) (fault _) f g h k = absurd h
  Agrees-bind (fault _) (ok _) f g h k = absurd h
  Agrees-bind (fault _) (fault _) f g h k = h

  run-Agrees_from :
      (os : List (Op A)) (v : Vec A) (xs : List A) → Holds v xs → Agrees (run os v) (run_list os xs)
  unfolding run run_list
  run-Agrees_from [] v xs h = (h, refl)
  run-Agrees_from (o ∷ os) v xs h =
      Agrees-bind (step o v) (step_list o xs) _ _ (step-Agrees o v xs h) λ w ys a holds.
        Agrees-bind (run os w) (run_list os ys) _ _ (run-Agrees_from os w ys holds)
          λ u zs as' last. (last, refl)

  -- Every sequence of appends, inserts, writes, reads, pops and resets on a new vector gives the
  -- answers that it gives on the empty list, and the vector that is left holds the list that is
  -- left, with a buffer of the recorded size and a slot to spare; where a step on the list is out
  -- of bounds, the vector stops with the same fault, so no step touches memory outside the buffer.
  pub run-Agrees : (os : List (Op A)) → Agrees (run os vec_create) (run_list os [])
  run-Agrees os = run-Agrees_from os vec_create [] vec_create-Holds
