-- ===== src/Ssa/Scope.antt =====
-- src/ssa.c: which temporaries a block may use at a point, and the table of rules for them.
use qbt.Prelude.{
  ℕ, suc, ◌<◌, ◌≡◌, refl, ap, ◌∙◌, inl, inr, List, [], ◌∷◌, true, Bool-cases, ok, arith, leb, ◌==◌,
  length, set, traverse, if◌then◌else◌, All, Has,
}
use qbt.Nodes.{Val, reg, tmp, noclass, is_tmp}
use qbt.Rules.{grow}
use qbt.Rules.Laws.{rule, rule-set, get_or_past, get_elem?-get_or}
use qbt.Ssa.{add_tmp_rule, rewritten, rename_use, rename_def, Renaming}

-- An operand that is a temporary is one of `ds`.
abbrev pub InScope : List ℕ → Val → Type 0
InScope ds (tmp t) = Has t ds
InScope ds _ = Unit

-- A parameter or argument is a temporary.
abbrev pub IsTmp : Val → Type 0
IsTmp v = is_tmp v ≡ true

-- Every temporary of `ds` has a rule.
abbrev pub Ruled : List ℕ → List Val → Type 0
Ruled ds rmap = (t : ℕ) → Has t ds → (n : ℕ) × (rule rmap t ≡ tmp n)

lt_of_rule : (rmap : List Val) (t n : ℕ) → rule rmap t ≡ tmp n → t < length rmap
lt_of_rule rmap t n h = elim (Bool-cases (leb (length rmap) t)) [
  | inl past ↦ absurd (none_there (get_or_past rmap t noclass (ground arith)))
  | inr inside ↦ ground arith
]
  where
    none_there : rule rmap t ≡ noclass → ⊥
    none_there e = cc

rewritten-rule :
    (rmap : List Val) (t n : ℕ) → rule rmap t ≡ tmp n → rewritten rmap (tmp t) ≡ ok (tmp n)
unfolding rewritten
rewritten-rule rmap t n h =
    let lt = lt_of_rule rmap t n h in
    let fits : leb t (length rmap) ≡ true = ground arith in
    rw (fits, get_elem?-get_or rmap t noclass lt, h) refl

-- A use in scope is renamed to a temporary, and any other operand is left.
pub rename_use-ok :
    (ds : List ℕ) (rmap : List Val) (v : Val)
    → Ruled ds rmap
    → InScope ds v
    → (w : Val) × (rename_use rmap v ≡ ok w)
unfolding rename_use
rename_use-ok ds rmap (tmp t) h has = let (n, e) = h t has in (tmp n, rewritten-rule rmap t n e)
rename_use-ok ds rmap (reg r) h has = (reg r, refl)
rename_use-ok ds rmap (Val.imm v t) h has = (Val.imm v t, refl)
rename_use-ok ds rmap (Val.mem b o) h has = (Val.mem b o, refl)
rename_use-ok ds rmap (Val.ref s) h has = (Val.ref s, refl)
rename_use-ok ds rmap noclass h has = (noclass, refl)

-- Arguments in scope are renamed.
pub rename_args-ok :
    (ds : List ℕ) (rmap vs : List Val)
    → Ruled ds rmap
    → All IsTmp vs
    → All (InScope ds) vs
    → (ws : List Val) × (traverse (rewritten rmap) vs ≡ ok ws)
rename_args-ok ds rmap [] h tmps has = ([], refl)
rename_args-ok ds rmap (tmp t ∷ vs) h (ht, tmps) (has, others) =
    let (n, e) = h t has in
    let (ws, es) = rename_args-ok ds rmap vs h tmps others in
    (tmp n ∷ ws, rw (rewritten-rule rmap t n e, es) refl)
rename_args-ok ds rmap (reg r ∷ vs) h (ht, tmps) has = absurd cc
rename_args-ok ds rmap (Val.imm v t ∷ vs) h (ht, tmps) has = absurd cc
rename_args-ok ds rmap (Val.mem b o ∷ vs) h (ht, tmps) has = absurd cc
rename_args-ok ds rmap (Val.ref s ∷ vs) h (ht, tmps) has = absurd cc
rename_args-ok ds rmap (noclass ∷ vs) h (ht, tmps) has = absurd cc

-- A definition takes the next number, and comes into scope.
pub rename_def-ok :
    (ds : List ℕ) (t : ℕ) (s : Renaming)
    → Ruled ds s.rmap
    → (rmap : List Val) × (rename_def (tmp t) s
        ≡ ok (tmp s.next, record { rmap = rmap; next = suc s.next }))
      × Ruled (t ∷ ds) rmap
unfolding rename_def add_tmp_rule
rename_def-ok ds t s h =
    let rmap = set (grow noclass s.rmap t) t (tmp s.next) in
    let same : (t == t) ≡ true = ground arith in
    let here : rule rmap t ≡ tmp s.next =
      rule-set s.rmap t t (tmp s.next) ∙ ap (λ b. if b then tmp s.next else rule s.rmap t) same in
    (rmap, rw (rewritten-rule rmap t s.next here) refl, kept)
  where
    kept : Ruled (t ∷ ds) (set (grow noclass s.rmap t) t (tmp s.next))
    kept u has = elim (Bool-cases (t == u)) [
      | inl e ↦ (
        s.next,
        rule-set s.rmap t u (tmp s.next) ∙ ap (λ b. if b then tmp s.next else rule s.rmap u) e,
      )
      | inr e ↦ elim has [
        | inl same ↦ absurd (ground arith)
        | inr old ↦
            let (n, r) = h u old in
            (
              n,
              rule-set s.rmap t u (tmp s.next)
                  ∙ ap (λ b. if b then tmp s.next else rule s.rmap u) e
                  ∙ r,
            )
      ]
    ]
