-- ===== src/Ssa/Params/Ready.antt =====
-- A block whose parameters hold what is live in front of it uses only what is in scope.
use qbt.Prelude.{
  ℕ, ◌≡◌, inl, inr, List, [], ◌∷◌, Bool, true, false, Bool-cases, ◌||◌, arith, All, Has,
}
use qbt.Nodes.{Val, reg, tmp, noclass, Insn, Blk}
use qbt.Ssa.Scope.{InScope, IsTmp}
use qbt.Ssa.Fresh.{enter, enter_all, enter_outs, ScopedInsns, Scoped}
use qbt.Ssa.Params.Tables.{reads, among}
use qbt.Ssa.Params.Live.{writes, exposed, live}

reads-InScope : (ds : List ℕ) (v : Val) → ((t : ℕ) → reads v t ≡ true → Has t ds) → InScope ds v
reads-InScope ds (tmp u) h = h u (ground arith)
reads-InScope ds (reg r) h = tt
reads-InScope ds (Val.imm a b) h = tt
reads-InScope ds (Val.mem a b) h = tt
reads-InScope ds (Val.ref a) h = tt
reads-InScope ds noclass h = tt

among-InScope :
    (ds : List ℕ) (vs : List Val) → ((t : ℕ) → among vs t ≡ true → Has t ds) → All (InScope ds) vs
among-InScope ds [] h = tt
among-InScope ds (v ∷ vs) h = (
  reads-InScope ds v (λ t e. h t (ground arith)),
  among-InScope ds vs (λ t e. h t (ground arith)),
)

Has-enter : (t : ℕ) (v : Val) (ds : List ℕ) → Has t ds → Has t (enter v ds)
Has-enter t (tmp u) ds h = inr h
Has-enter t (reg r) ds h = h
Has-enter t (Val.imm a b) ds h = h
Has-enter t (Val.mem a b) ds h = h
Has-enter t (Val.ref a) ds h = h
Has-enter t noclass ds h = h

reads-enter : (t : ℕ) (v : Val) (ds : List ℕ) → reads v t ≡ true → Has t (enter v ds)
reads-enter t (tmp u) ds e = let same : t ≡ u = ground arith in inl same
reads-enter t (reg r) ds e = absurd cc
reads-enter t (Val.imm a b) ds e = absurd cc
reads-enter t (Val.mem a b) ds e = absurd cc
reads-enter t (Val.ref a) ds e = absurd cc
reads-enter t noclass ds e = absurd cc

Has-enter_all : (t : ℕ) (ps : List Val) (ds : List ℕ) → Has t ds → Has t (enter_all ps ds)
Has-enter_all t [] ds h = h
Has-enter_all t (p ∷ ps) ds h = Has-enter_all t ps (enter p ds) (Has-enter t p ds h)

among-enter_all :
    (t : ℕ) (ps : List Val) (ds : List ℕ) → among ps t ≡ true → Has t (enter_all ps ds)
among-enter_all t (p ∷ ps) ds e = elim (Bool-cases (reads p t)) [
  | inl h ↦ Has-enter_all t ps (enter p ds) (reads-enter t p ds h)
  | inr h ↦ among-enter_all t ps (enter p ds) (ground arith)
]
among-enter_all t [] ds e = absurd cc

Has-enter_outs : (t : ℕ) (is : List Insn) (ds : List ℕ) → Has t ds → Has t (enter_outs is ds)
Has-enter_outs t [] ds h = h
Has-enter_outs t (i ∷ is) ds h = Has-enter_outs t is (enter i.out ds) (Has-enter t i.out ds h)

writes-enter_outs :
    (t : ℕ) (is : List Insn) (ds : List ℕ) → writes is t ≡ true → Has t (enter_outs is ds)
writes-enter_outs t (i ∷ is) ds e = elim (Bool-cases (reads i.out t)) [
  | inl h ↦ Has-enter_outs t is (enter i.out ds) (reads-enter t i.out ds h)
  | inr h ↦ writes-enter_outs t is (enter i.out ds) (ground arith)
]
writes-enter_outs t [] ds e = absurd cc

exposed-ScopedInsns :
    (is : List Insn) (ds : List ℕ)
    → ((t : ℕ) → exposed is false t ≡ true → Has t ds)
    → ScopedInsns ds is
exposed-ScopedInsns [] ds h = tt
exposed-ScopedInsns (i ∷ is) ds h = (
  reads-InScope ds i.in0 (λ t e. h t (ground arith)),
  reads-InScope ds i.in1 (λ t e. h t (ground arith)),
  exposed-ScopedInsns is (enter i.out ds) (λ t e. elim (Bool-cases (reads i.out t)) [
    | inl out ↦ reads-enter t i.out ds out
    | inr kept ↦ Has-enter t i.out ds (h t (rw kept (ground arith)))
  ]),
)

module _ (b : Blk) (after : ℕ → Bool) where
  behind :
      ((t : ℕ) → live b after t ≡ true → among b.params t ≡ true)
      → (t : ℕ) → live b after t || writes b.insns t ≡ true
      → Has t (enter_outs b.insns (enter_all b.params []))
  behind h t e = elim (Bool-cases (writes b.insns t)) [
    | inl w ↦ writes-enter_outs t b.insns (enter_all b.params []) w
    | inr w ↦
        Has-enter_outs t b.insns (enter_all b.params [])
          (among-enter_all t b.params [] (h t (ground arith)))
  ]

  pub live-Scoped :
      All IsTmp b.params
      → All IsTmp b.args1
      → All IsTmp b.args2
      → ((t : ℕ) → live b after t ≡ true → among b.params t ≡ true)
      → ((t : ℕ) → among b.args1 t || among b.args2 t ≡ true → after t ≡ true)
      → Scoped b
  live-Scoped hp h1 h2 all passed =
      let end = enter_outs b.insns (enter_all b.params []) in
      record {
        params = hp;
        insns =
            exposed-ScopedInsns b.insns (enter_all b.params [])
              (λ t e. among-enter_all t b.params [] (all t (ground arith)));
        cmp0 = reads-InScope end b.cmp0 (λ t e. behind all t (ground arith));
        cmp1 = reads-InScope end b.cmp1 (λ t e. behind all t (ground arith));
        args1 = h1;
        args1_known = among-InScope end b.args1 (λ t e. behind all t (ground (arith, passed t)));
        args2 = h2;
        args2_known = among-InScope end b.args2 (λ t e. behind all t (ground (arith, passed t)));
      }
