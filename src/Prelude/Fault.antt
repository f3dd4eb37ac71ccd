-- ===== src/Prelude/Fault.antt =====
-- Checked code: a value, or the way in which the program stops.
-- `assert_failed` is a failed `assert`, `aborted` a call of `abort`, `vec_bounds` the assert in
-- `vec_at`, `vec_pop` and `vec_insert`, `array_bounds` a read past the end of a static array,
-- `dangling` a pointer to no block, `out_of_fuel` a bound of the model that a loop exceeded.
use mathlib.Core.Path.{◌≡◌, refl}
use mathlib.Core.Bool.{Bool, true, false}
use mathlib.Core.Option.{Option, none, some}
use mathlib.Core.List.{List, [], ◌∷◌}

pub data Fault : Type 0 where
  assert_failed aborted vec_bounds array_bounds dangling out_of_fuel : Fault

pub data Result {ℓ} (A : Type ℓ) : Type ℓ where
  fault : Fault → Result A
  ok : A → Result A

infixl 5 ◌>>=◌
abbrev pub ◌>>=◌ {ℓ κ} : {S : Type ℓ} {T : Type κ} → Result S → (S → Result T) → Result T
fault why >>= next = fault why
ok s >>= next = next s

-- A check that must pass before the rest.
infixl 5 ◌>>◌
abbrev pub ◌>>◌ {κ} : {T : Type κ} → Result (Unit {0}) → Result T → Result T
check >> rest = check >>= λ done. rest

-- `assert(b)`
abbrev pub assert : Bool → Result (Unit {0})
assert true = ok tt
assert false = fault assert_failed

-- A value that must be there.
abbrev pub demand {ℓ} : {A : Type ℓ} → Fault → Option A → Result A
demand e none = fault e
demand e (some a) = ok a

-- A loop that rewrites every element in place.
abbrev pub traverse {ℓ κ} : {A : Type ℓ} {B : Type κ} → (A → Result B) → List A → Result (List B)
traverse f [] = ok []
traverse f (x ∷ xs) = do y ← f x; ys ← traverse f xs; ok (y ∷ ys)

-- A chain that succeeds went through a value of its first part.
abbrev pub Via {ℓ κ} : {S : Type ℓ} {T : Type κ} → Result S → (S → Result T) → T → Type (ℓ ⊔ κ)
Via {S} part next t = (s : S) × (part ≡ ok s) × (next s ≡ ok t)

pub bind-ok {ℓ κ} :
    {S : Type ℓ} {T : Type κ} (part : Result S) (next : S → Result T) {t : T}
    → (part >>= next) ≡ ok t
    → Via part next t
bind-ok (fault why) next e = cc
bind-ok (ok s) next e = (s, refl, e)

pub then-ok {κ} :
    {T : Type κ} (check : Result (Unit {0})) (rest : Result T) {t : T}
    → (check >> rest) ≡ ok t
    → rest ≡ ok t
then-ok (fault why) rest e = cc
then-ok (ok done) rest e = e

pub ok-injective {ℓ} : {S : Type ℓ} {s t : S} → Result.ok s ≡ ok t → s ≡ t
ok-injective e = cc

-- Whatever comes out has the property.
abbrev pub Yields {ℓ κ} : {T : Type ℓ} → (T → Type κ) → Result T → Type κ
Yields P (fault why) = Unit
Yields P (ok t) = P t

pub Yields-bind {ℓ κ μ} :
    {S : Type ℓ} {T : Type κ} (P : T → Type μ) (part : Result S) (next : S → Result T)
    → ((s : S) → Yields P (next s))
    → Yields P (part >>= next)
Yields-bind P (fault why) next h = tt
Yields-bind P (ok s) next h = h s

pub Yields-ok {ℓ κ} :
    {T : Type ℓ} (P : T → Type κ) (m : Result T) {t : T} → Yields P m → m ≡ ok t → P t
Yields-ok P (fault why) h e = absurd cc
Yields-ok P (ok s) h e = rw (← ok-injective e) h
