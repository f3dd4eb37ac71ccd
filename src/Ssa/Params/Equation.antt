-- ===== src/Ssa/Params/Equation.antt =====
-- src/ssa.c: the parameters of a block are the temporaries that are live in front of it, by the
-- equation of liveness.
use qbt.Prelude.{
  ℕ, ◌≡◌, refl, ap, sym, ◌∙◌, inl, inr, List, [], ◌++◌, Bool, true, false, Bool-cases, not, ◌&&◌,
  ◌||◌, Option, none, some, ok, ok-injective, arith, leb, All,
}
use qbt.Nodes.{Val, Blk}
use qbt.Nodes.Blocks.{same_target}
use qbt.Ssa.Scope.{IsTmp}
use qbt.Ssa.Params.{
  Sets, add_all, params_of, other_target, forwards, need, scan_insns, present, require_params,
}
use qbt.Ssa.Params.Tables.{
  reads, among, Table, Table-ext, Table-From, add_all-Table, require_all-Table, present-IsTmp,
  among-present,
}
use qbt.Ssa.Params.Live.{writes, exposed, live, need-Tables, scan_insns-Tables}

same_params :
    (blks : List Blk) (p q : Option ℕ)
    → same_target q p ≡ true
    → params_of blks q ≡ params_of blks p
unfolding same_target
same_params blks none none e = refl
same_params blks (some a) (some b) e =
    let same : b ≡ a = ground arith in ap (λ t. params_of blks (some t)) same
same_params blks none (some b) e = absurd cc
same_params blks (some a) none e = absurd cc

empty-Table : Table [] (λ t. false)
empty-Table t = refl

forwards-Table :
    (blks : List Blk) (b : Blk) (ps qs : List Val)
    → params_of blks b.s1 ≡ ok ps
    → params_of blks b.s2 ≡ ok qs
    → All IsTmp ps
    → All IsTmp qs
    → (m : List Val) × (forwards blks b ≡ ok m) × Table m (λ t. among ps t || among qs t)
unfolding forwards other_target params_of add_all
forwards-Table blks b ps qs e1 e2 h1 h2 =
    let (m, em, hm) = add_all-Table [] (λ t. false) ps empty-Table h1 in
    elim (Bool-cases (same_target b.s2 b.s1)) [
      | inl same ↦
          let equal : qs ≡ ps = ok-injective (sym e2 ∙ same_params blks b.s1 b.s2 same ∙ e1) in
          (
            m,
            rw (e1, em, same) refl,
            Table-ext m (λ t. false || among ps t) (λ t. among ps t || among qs t) hm
                (λ t. rw equal (ground arith)),
          )
      | inr differ ↦
          let (n, en, hn) = add_all-Table m (λ t. false || among ps t) qs hm h2 in
          (
            n,
            rw (e1, em, differ, e2) en,
            Table-ext n (λ t. (false || among ps t) || among qs t) (λ t. among ps t || among qs t)
                hn (λ t. ground arith),
          )
    ]

-- What the instructions and the branch need, where `after` is to be forwarded.
needed : Blk → ℕ → Bool
needed b t =
    exposed b.insns false t || ((reads b.cmp0 t || reads b.cmp1 t) && not (writes b.insns t))

block-Tables :
    (b : Blk) (forward : List Val) (after : ℕ → Bool)
    → Table forward after
    → (s s1 s2 : Sets) × (scan_insns b.insns
          (record { generated = []; forward = forward; required = [] })
        ≡ ok s)
      × (need b.cmp0 s ≡ ok s1)
      × (need b.cmp1 s1 ≡ ok s2)
      × Table s2.forward (λ t. after t && not (writes b.insns t))
      × Table s2.required (needed b)
unfolding needed
block-Tables b forward after h =
    let start : Sets = record { generated = []; forward = forward; required = [] } in
    let (s, es, hs) =
      scan_insns-Tables b.insns start (λ t. false) after (λ t. false)
        (record { generated = empty-Table; forward = h; required = empty-Table }) in
    let (s1, en, hn) = need-Tables b.cmp0 s _ _ _ hs in
    let (s2, em, hm) = need-Tables b.cmp1 s1 _ _ _ hn in
    (
      s,
      s1,
      s2,
      es,
      en,
      em,
      hm.forward,
      Table-ext s2.required _ (needed b) hm.required (λ t. ground arith),
    )

needed-live :
    (b : Blk) (after : ℕ → Bool) (t : ℕ)
    → leb 0 t && (needed b t || (leb 0 t && (after t && not (writes b.insns t)))) ≡ live b after t
unfolding needed
needed-live b after t = ground arith

-- Where the parameters of the successors are temporaries, the second visit adds to the parameters
-- of a block, each a temporary, exactly what is live in front of it when the parameters of its
-- successors are live behind it.
pub require_params-live :
    (blks : List Blk) (b : Blk) (ps qs : List Val)
    → params_of blks b.s1 ≡ ok ps
    → params_of blks b.s2 ≡ ok qs
    → All IsTmp ps
    → All IsTmp qs
    → (new : List Val) × (require_params blks b ≡ ok (record b { params = b.params ++ new }))
      × All IsTmp new
      × ((t : ℕ) → among new t ≡ live b (λ u. among ps u || among qs u) t)
unfolding require_params
require_params-live blks b ps qs e1 e2 h1 h2 =
    let after : ℕ → Bool = λ t. among ps t || among qs t in
    let passed : ℕ → Bool = λ t. after t && not (writes b.insns t) in
    let all : ℕ → Bool = λ t. needed b t || (leb 0 t && passed t) in
    let (forward, ef, hf) = forwards-Table blks b ps qs e1 e2 h1 h2 in
    let (s, s1, s2, es, en, em, fs, rs) = block-Tables b forward after hf in
    let (required, er, hr) =
      require_all-Table 0 s2.forward s2.required passed (needed b) (Table-From s2.forward passed fs)
        rs in
    let from = Table-From required all hr in
    (
      present required,
      rw (ef, es, en, em, er) refl,
      present-IsTmp 0 required all from,
      λ t. among-present 0 required all t from ∙ needed-live b after t,
    )
