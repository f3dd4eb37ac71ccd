-- ===== src/Prelude/Store.antt =====
-- Registers and memory as functions from numbers.
use Prim.Native.Nat.{ℕ}
use mathlib.Core.Path.{◌≡◌, refl}
use mathlib.Core.Logic.{◌≢◌}
use mathlib.Core.Bool.{true, false}
use native.Mathlib.Omega.{arith}
use qbt.Prelude.Tests.{◌==◌, if◌then◌else◌}

abbrev pub write {ℓ} : {A : Type ℓ} → (ℕ → A) → ℕ → A → ℕ → A
write f k a n = if n == k then a else f n

module _ {ℓ} {A : Type ℓ} where
  pub write_self : (f : ℕ → A) (k : ℕ) (a : A) → write f k a k ≡ a
  write_self f k a = let same : (k == k) ≡ true = ground arith in rw same refl

  pub write-ne : (f : ℕ → A) (k n : ℕ) (a : A) → n ≢ k → write f k a n ≡ f n
  write-ne f k n a ne = let other : (n == k) ≡ false = ground arith in rw other refl
