-- ===== src/Vec/Refine.antt =====
-- The vector of vec.c against the list that its users see.
use mathlib.Core.List.{append_assoc}
use qbt.Prelude.{
  ℕ, suc, ◌+◌, ◌-◌, ◌<◌, ◌≡◌, refl, ap, ◌∙◌, List, [], ◌∷◌, ◌++◌, Option, none, some, true, false,
  arith, length, replicate, length-append, length-replicate, ok, leb, ◌==◌,
}
use qbt.Seq
use qbt.Seq.{insert_at}
use qbt.Vec.{Vec, read, vec_create, vec_pop, make_room, vec_append, vec_insert}
use qbt.Vec.Slots.{
  slots, read-slots, read-slots, write-slots_end, memmove_up-slots, write-move_up, length-insert_at,
}

-- The vector holds the list: the used slots carry its elements, and the buffer, of the size that
-- was allocated, has at least one slot to spare.
pub record Holds {ℓ} {A : Type ℓ} (v : Vec A) (xs : List A) : Type ℓ where
  pub spare : List (Option A)
  pub buffer : v.buf ≡ slots xs spare
  pub count : v.n ≡ length xs
  pub size : v.s ≡ length xs + length spare
  pub room : 0 < length spare

-- Room was made for one more element.
record HasRoom {ℓ} {A : Type ℓ} (v : Vec A) (xs : List A) : Type ℓ where
  first : Option A
  second : Option A
  spare : List (Option A)
  buffer : v.buf ≡ slots xs (first ∷ second ∷ spare)
  count : v.n ≡ suc (length xs)
  size : v.s ≡ length xs + suc (suc (length spare))

module _ {ℓ} {A : Type ℓ} where
  pub vec_create-Holds : Holds {A = A} vec_create []
  unfolding vec_create
  vec_create-Holds = record {
    spare = none ∷ [];
    buffer = refl;
    count = refl;
    size = refl;
    room = omega arith;
  }

  make_room-slots :
      (n s : ℕ) (buf : List (Option A)) (xs : List A) (spare : List (Option A))
      → buf ≡ slots xs spare
      → n ≡ length xs
      → s ≡ length xs + length spare
      → 0 < length spare
      → HasRoom (make_room (record { n = n; s = s; buf = buf })) xs
  unfolding make_room
  make_room-slots n s buf xs [] b c z r = absurd (omega arith)
  make_room-slots n s buf xs (p ∷ []) b c z r =
      let full : leb s (suc n) ≡ true = ground arith in
      let twice : s ≡ suc (length xs) = omega arith in
      rw (full, twice, b, c, append_assoc)
        (record {
          first = p;
          second = none;
          spare = replicate (length xs) none;
          buffer = refl;
          count = refl;
          size = omega (arith, length-replicate {A = Option A} (length xs) none);
        })
  make_room-slots n s buf xs (p ∷ q ∷ spare) b c z r =
      let free : leb s (suc n) ≡ false = ground arith in
      rw free
        (record { first = p; second = q; spare = spare; buffer = b; count = omega arith; size = z })

  make_room-HasRoom : (v : Vec A) (xs : List A) → Holds v xs → HasRoom (make_room v) xs
  make_room-HasRoom v xs h = make_room-slots v.n v.s v.buf xs h.spare h.buffer h.count h.size h.room

  -- `vec_append` never writes outside the buffer, and adds the element at the end.
  pub vec_append-Holds :
      (v : Vec A) (xs : List A) (a : A)
      → Holds v xs
      → (w : Vec A) × (vec_append v a ≡ ok w) × Holds w (xs ++ a ∷ [])
  unfolding vec_append
  vec_append-Holds v xs a h =
      let r = make_room-HasRoom v xs h in
      let last : suc (length xs) - 1 ≡ length xs = omega arith in
      (
        record (make_room v) { buf = slots (xs ++ a ∷ []) (r.second ∷ r.spare) },
        rw (r.buffer, r.count, last, write-slots_end xs r.first (r.second ∷ r.spare) a),
        record {
          spare = r.second ∷ r.spare;
          buffer = refl;
          count = omega (arith, r.count, length-append xs (a ∷ []));
          size = omega (arith, r.size, length-append xs (a ∷ []));
          room = omega arith;
        },
      )

  pub vec_insert_inside :
      (v : Vec A) (xs : List A) (a : A) (i : ℕ)
      → Holds v xs
      → i < length xs
      → (w : Vec A) × (vec_insert v a i ≡ ok w) × Holds w (insert_at xs a i)
  unfolding vec_insert
  vec_insert_inside v xs a i h below =
      let r = make_room-HasRoom v xs h in
      let allowed : leb i v.n ≡ true = ground (arith, h.count) in
      let short : (i == v.n) ≡ false = ground (arith, h.count) in
      let tail : suc (length xs) - i - 1 ≡ length xs - i = omega arith in
      let sized : length (insert_at xs a i) ≡ suc (length xs) = length-insert_at xs i a below in
      (
        record (make_room v) { buf = slots (insert_at xs a i) (r.second ∷ r.spare) },
        rw (
          allowed,
          short,
          r.buffer,
          r.count,
          tail,
          memmove_up-slots xs r.first (r.second ∷ r.spare) i below,
          write-move_up xs r.first (r.second ∷ r.spare) i a below,
        ),
        record {
          spare = r.second ∷ r.spare;
          buffer = refl;
          count = omega (arith, r.count);
          size = omega (arith, r.size);
          room = omega arith;
        },
      )

-- A list is empty or ends in an element.
pub data Snoc {ℓ} {A : Type ℓ} : List A → Type ℓ where
  empty : Snoc []
  ends : (zs : List A) (z : A) → Snoc (zs ++ z ∷ [])

module _ {ℓ} {A : Type ℓ} where
  pub snoc : (xs : List A) → Snoc xs
  snoc [] = empty
  snoc (x ∷ xs) = elim (snoc xs) as (λ ys _. Snoc (x ∷ ys)) [
    | empty ↦ ends [] x
    | ends zs z ↦ ends (x ∷ zs) z
  ]

  pub vec_pop-append : (zs : List A) (z : A) → Seq.vec_pop (zs ++ z ∷ []) ≡ ok (zs, z)
  unfolding Seq.vec_pop
  vec_pop-append [] z = refl
  vec_pop-append (x ∷ []) z = refl
  vec_pop-append (x ∷ y ∷ zs) z = rw (vec_pop-append (y ∷ zs) z)

  vec_at-append : (zs : List A) (z : A) → Seq.vec_at (zs ++ z ∷ []) (length zs) ≡ ok z
  vec_at-append [] z = refl
  vec_at-append (x ∷ zs) z = vec_at-append zs z

  slots-append :
      (zs : List A) (z : A) (rest : List (Option A))
      → slots (zs ++ z ∷ []) rest ≡ slots zs (some z ∷ rest)
  slots-append [] z rest = refl
  slots-append (x ∷ zs) z rest = ap (λ t. some x ∷ t) (slots-append zs z rest)

  pub vec_pop-Holds :
      (v : Vec A) (zs : List A) (z : A)
      → Holds v (zs ++ z ∷ [])
      → (w : Vec A) × (vec_pop v ≡ ok (w, z)) × Holds w zs
  unfolding vec_pop
  vec_pop-Holds v zs z h =
      let count : v.n ≡ suc (length zs) = omega (arith, h.count, length-append zs (z ∷ [])) in
      let nonempty : (v.n == 0) ≡ false = ground arith in
      let last : v.n - 1 ≡ length zs = omega arith in
      let found : read v.buf (v.n - 1) ≡ ok z =
        rw (h.buffer, last)
          (read-slots (zs ++ z ∷ []) h.spare (length zs) (omega arith) ∙ vec_at-append zs z) in
      (
        record v { n = v.n - 1 },
        rw (nonempty, found),
        record {
          spare = some z ∷ h.spare;
          buffer = h.buffer ∙ slots-append zs z h.spare;
          count = last;
          size = omega (arith, h.size, length-append zs (z ∷ []));
          room = omega arith;
        },
      )
