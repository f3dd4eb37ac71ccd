-- ===== src/Ssa/Fresh.antt =====
-- src/ssa.c: the temporaries that the renamed blocks define.
use native.Mathlib.Nat.{add-zero, zero-add}
use mathlib.Core.Path.{ap₂}
use qbt.Prelude.{
  ℕ, zero, suc, ◌+◌, ◌≡◌, refl, ap, sym, ◌∙◌, List, [], ◌∷◌, ◌++◌, ok, arith, length, length-append,
  if◌then◌else◌, All,
}
use qbt.Nodes.{Val, reg, tmp, noclass, is_tmp, Insn, Blk}
use qbt.Ssa.{rename_def, rename_params, rename_insn, rename_insns, Renaming}
use qbt.Ssa.Scope.{InScope, IsTmp, Ruled, rename_use-ok, rename_def-ok}

-- The temporary that an output defines, if it is one.
abbrev pub out_list : Val → List Val
out_list (tmp t) = tmp t ∷ []
out_list _ = []

abbrev pub outs : List Insn → List Val
outs [] = []
outs (n ∷ ns) = out_list n.out ++ outs ns

-- What a block defines, in order.
abbrev pub defined : Blk → List Val
defined b = b.params ++ outs b.insns

abbrev pub all_defined : List Blk → List Val
all_defined [] = []
all_defined (b ∷ bs) = defined b ++ all_defined bs

-- `n` temporaries from `i` on
abbrev pub fresh : ℕ → ℕ → List Val
fresh i zero = []
fresh i (suc n) = tmp i ∷ fresh (suc i) n

fresh-append : (i m n : ℕ) → fresh i m ++ fresh (i + m) n ≡ fresh i (m + n)
fresh-append i zero n = ap₂ fresh (add-zero i) (sym (zero-add n))
fresh-append i (suc m) n =
    let move : i + suc m ≡ suc i + m = omega arith in
    let count : suc m + n ≡ suc (m + n) = omega arith in
    rw (move, count) (ap (λ l. tmp i ∷ l) (fresh-append (suc i) m n))

pub fresh-join :
    (i j : ℕ) (vs ws : List Val) {xs ys : List Val}
    → xs ≡ fresh i (length vs)
    → ys ≡ fresh j (length ws)
    → j ≡ i + length vs
    → xs ++ ys ≡ fresh i (length (vs ++ ws))
fresh-join i j vs ws ex ey e =
    rw (ex, ey, e)
      (fresh-append i (length vs) (length ws) ∙ ap (fresh i) (sym (length-append vs ws)))

-- The scope behind a definition, behind parameters, and behind instructions.
abbrev pub enter : Val → List ℕ → List ℕ
enter (tmp t) ds = t ∷ ds
enter _ ds = ds

abbrev pub enter_all : List Val → List ℕ → List ℕ
enter_all [] ds = ds
enter_all (p ∷ ps) ds = enter_all ps (enter p ds)

abbrev pub enter_outs : List Insn → List ℕ → List ℕ
enter_outs [] ds = ds
enter_outs (n ∷ ns) ds = enter_outs ns (enter n.out ds)

abbrev pub ScopedInsns : List ℕ → List Insn → Type 0
ScopedInsns ds [] = Unit
ScopedInsns ds (n ∷ ns) = InScope ds n.in0 × InScope ds n.in1 × ScopedInsns (enter n.out ds) ns

-- Every temporary that a block uses is a parameter, or defined in front of the use.
pub record Scoped (b : Blk) : Type 0 where
  pub params : All IsTmp b.params
  pub insns : ScopedInsns (enter_all b.params []) b.insns
  pub cmp0 : InScope (enter_outs b.insns (enter_all b.params [])) b.cmp0
  pub cmp1 : InScope (enter_outs b.insns (enter_all b.params [])) b.cmp1
  pub args1 : All IsTmp b.args1
  pub args1_known : All (InScope (enter_outs b.insns (enter_all b.params []))) b.args1
  pub args2 : All IsTmp b.args2
  pub args2_known : All (InScope (enter_outs b.insns (enter_all b.params []))) b.args2

-- The state behind `k` definitions, with rules for `ds`.
abbrev pub Behind : List ℕ → ℕ → ℕ → Renaming → Type 0
Behind ds i k s = Ruled ds s.rmap × (s.next ≡ i + k)

pub rename_params-ok :
    (ds : List ℕ) (ps : List Val) (s : Renaming)
    → Ruled ds s.rmap
    → All IsTmp ps
    → (qs : List Val) × (s1 : Renaming) × (rename_params ps s ≡ ok (qs, s1))
      × Behind (enter_all ps ds) s.next (length ps) s1
      × (qs ≡ fresh s.next (length ps))
unfolding rename_params
rename_params-ok ds [] s h tmps = ([], s, refl, (h, sym (add-zero s.next)), refl)
rename_params-ok ds (tmp t ∷ ps) s h (ht, tmps) =
    let (rmap, e, ruled) = rename_def-ok ds t s h in
    let (qs, s1, es, (ruled1, next1), all) =
      rename_params-ok (t ∷ ds) ps (record { rmap = rmap; next = suc s.next }) ruled tmps in
    (tmp s.next ∷ qs, s1, rw (e, es) refl, (ruled1, omega arith), ap (λ l. tmp s.next ∷ l) all)
rename_params-ok ds (reg r ∷ ps) s h (ht, tmps) = absurd cc
rename_params-ok ds (Val.imm v t ∷ ps) s h (ht, tmps) = absurd cc
rename_params-ok ds (Val.mem b o ∷ ps) s h (ht, tmps) = absurd cc
rename_params-ok ds (Val.ref n ∷ ps) s h (ht, tmps) = absurd cc
rename_params-ok ds (noclass ∷ ps) s h (ht, tmps) = absurd cc

rename_out-ok :
    (ds : List ℕ) (v : Val) (s : Renaming)
    → Ruled ds s.rmap
    → (w : Val) × (s1 : Renaming) × ((if is_tmp v then rename_def v s else ok (v, s)) ≡ ok (w, s1))
      × Behind (enter v ds) s.next (length (out_list v)) s1
      × (out_list w ≡ fresh s.next (length (out_list v)))
rename_out-ok ds (tmp t) s h =
    let (rmap, e, ruled) = rename_def-ok ds t s h in
    (tmp s.next, record { rmap = rmap; next = suc s.next }, e, (ruled, omega arith), refl)
rename_out-ok ds (reg r) s h = (reg r, s, refl, (h, omega arith), refl)
rename_out-ok ds (Val.imm v t) s h = (Val.imm v t, s, refl, (h, omega arith), refl)
rename_out-ok ds (Val.mem b o) s h = (Val.mem b o, s, refl, (h, omega arith), refl)
rename_out-ok ds (Val.ref n) s h = (Val.ref n, s, refl, (h, omega arith), refl)
rename_out-ok ds noclass s h = (noclass, s, refl, (h, omega arith), refl)

pub rename_insns-ok :
    (ds : List ℕ) (ns : List Insn) (s : Renaming)
    → Ruled ds s.rmap
    → ScopedInsns ds ns
    → (ms : List Insn) × (s1 : Renaming) × (rename_insns ns s ≡ ok (ms, s1))
      × Behind (enter_outs ns ds) s.next (length (outs ns)) s1
      × (outs ms ≡ fresh s.next (length (outs ns)))
unfolding rename_insns rename_insn
rename_insns-ok ds [] s h scoped = ([], s, refl, (h, sym (add-zero s.next)), refl)
rename_insns-ok ds (n ∷ ns) s h (use0, use1, scoped) =
    let (in0, e0) = rename_use-ok ds s.rmap n.in0 h use0 in
    let (in1, e1) = rename_use-ok ds s.rmap n.in1 h use1 in
    let (out, s1, eo, (ruled1, next1), def) = rename_out-ok ds n.out s h in
    let (ms, s2, es, (ruled2, next2), defs) =
      rename_insns-ok (enter n.out ds) ns s1 ruled1 scoped in
    (
      record n { out = out; in0 = in0; in1 = in1 } ∷ ms,
      s2,
      rw (e0, e1, eo, es) refl,
      (ruled2, omega (arith, length-append (out_list n.out) (outs ns))),
      fresh-join s.next s1.next (out_list n.out) (outs ns) def defs next1,
    )
