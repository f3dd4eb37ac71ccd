-- ===== src/Rules/Laws.antt =====
-- The tables as functions from a temporary's number.
use qbt.Prelude.{
  ℕ, zero, suc, ◌+◌, ◌-◌, ◌<◌, ◌≤◌, ◌≡◌, refl, ap, ◌∙◌, inl, inr, List, [], ◌∷◌, ◌++◌, ok, arith,
  leb, ◌==◌, length, length-append, get_or, get_elem?, set, if◌then◌else◌, Bool-cases, some,
}
use qbt.Nodes.{Val, reg, tmp, noclass, hasclass, r_of}
use qbt.Rules.{append_rounds, grow, has_rewrite_rule, rewrite_tmp, add_rewrite_rule}

-- What the table says of temporary `t`.
abbrev pub rule : List Val → ℕ → Val
rule rmap t = get_or rmap t noclass

module _ {ℓ} {A : Type ℓ} where
  get_or-append : (xs : List A) (d : A) (j : ℕ) → get_or (xs ++ d ∷ []) j d ≡ get_or xs j d
  get_or-append [] d zero = refl
  get_or-append [] d (suc j) = refl
  get_or-append (x ∷ xs) d zero = refl
  get_or-append (x ∷ xs) d (suc j) = get_or-append xs d j

  get_or-append_rounds :
      (k : ℕ) (d : A) (xs : List A) (j : ℕ) → get_or (append_rounds k d xs) j d ≡ get_or xs j d
  get_or-append_rounds zero d xs j = refl
  get_or-append_rounds (suc k) d xs j =
      get_or-append_rounds k d (xs ++ d ∷ []) j ∙ get_or-append xs d j

  length-append_rounds :
      (k : ℕ) (d : A) (xs : List A) → length (append_rounds k d xs) ≡ length xs + k
  length-append_rounds zero d xs = omega arith
  length-append_rounds (suc k) d xs =
      omega (arith, length-append_rounds k d (xs ++ d ∷ []), length-append xs (d ∷ []))

  pub get_or-grow : (d : A) (xs : List A) (r j : ℕ) → get_or (grow d xs r) j d ≡ get_or xs j d
  unfolding grow
  get_or-grow d xs r j = get_or-append_rounds (suc r - length xs) d xs j

  -- The padding loop reaches the index.
  pub lt-length-grow : (d : A) (xs : List A) (r : ℕ) → r < length (grow d xs r)
  unfolding grow
  lt-length-grow d xs r = omega (arith, length-append_rounds (suc r - length xs) d xs)

  pub get_or-set :
      (xs : List A) (i j : ℕ) (v d : A)
      → i < length xs
      → get_or (set xs i v) j d ≡ (if i == j then v else get_or xs j d)
  get_or-set [] i j v d h = absurd (omega arith)
  get_or-set (x ∷ xs) zero zero v d h = refl
  get_or-set (x ∷ xs) zero (suc j) v d h = ground arith
  get_or-set (x ∷ xs) (suc i) zero v d h = ground arith
  get_or-set (x ∷ xs) (suc i) (suc j) v d h = ground (arith, get_or-set xs i j v d)

  pub get_or_past : (xs : List A) (j : ℕ) (d : A) → length xs ≤ j → get_or xs j d ≡ d
  get_or_past [] j d h = refl
  get_or_past (x ∷ xs) zero d h = absurd (omega arith)
  get_or_past (x ∷ xs) (suc j) d h = get_or_past xs j d (omega arith)

  pub get_elem?-get_or :
      (xs : List A) (j : ℕ) (d : A) → j < length xs → get_elem? xs j ≡ some (get_or xs j d)
  get_elem?-get_or [] j d h = absurd (omega arith)
  get_elem?-get_or (x ∷ xs) zero d h = refl
  get_elem?-get_or (x ∷ xs) (suc j) d h = get_elem?-get_or xs j d (omega arith)

-- A stored rule is found again, and no other rule changes.
pub rule-set :
    (rmap : List Val) (t j : ℕ) (to : Val)
    → rule (set (grow noclass rmap t) t to) j ≡ (if t == j then to else rule rmap j)
rule-set rmap t j to =
    get_or-set (grow noclass rmap t) t j to noclass (lt-length-grow noclass rmap t)
    ∙ ap (λ r. if t == j then to else r) (get_or-grow noclass rmap t j)

pub add_rewrite_rule-ok :
    (rmap : List Val) (t r : ℕ)
    → add_rewrite_rule rmap (tmp t) (reg r) ≡ ok (set (grow noclass rmap t) t (reg r))
unfolding add_rewrite_rule
add_rewrite_rule-ok rmap t r = refl

pub has_rewrite_rule-eq :
    (rmap : List Val) (t : Val) → has_rewrite_rule rmap t ≡ hasclass (rule rmap (r_of t))
unfolding has_rewrite_rule
has_rewrite_rule-eq rmap t = elim (Bool-cases (leb (length rmap) (r_of t))) [
  | inl past ↦ rw (past, get_or_past rmap (r_of t) noclass (ground arith))
  | inr inside ↦ rw inside
]

lt_of_rule : (rmap : List Val) (t : ℕ) {r : ℕ} → rule rmap t ≡ reg r → t < length rmap
lt_of_rule rmap t h = elim (Bool-cases (leb (length rmap) t)) [
  | inl past ↦ absurd (not_reg (get_or_past rmap t noclass (ground arith)) h)
  | inr inside ↦ ground arith
]
  where
    not_reg : {v : Val} {r : ℕ} → v ≡ noclass → v ≡ reg r → ⊥
    not_reg p q = cc

pub rewrite_tmp-ok :
    (rmap : List Val) (t : ℕ) {r : ℕ} → rule rmap t ≡ reg r → rewrite_tmp rmap (tmp t) ≡ ok (reg r)
unfolding rewrite_tmp
rewrite_tmp-ok rmap t h = rw (get_elem?-get_or rmap t noclass (lt_of_rule rmap t h), h)
