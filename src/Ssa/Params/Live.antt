-- ===== src/Ssa/Params/Live.antt =====
-- src/ssa.c: liveness, and the tables that the second visit fills as it goes through the
-- instructions of a block.
use qbt.Prelude.{
  ℕ, ◌≡◌, refl, ap, inl, inr, List, [], ◌∷◌, Bool, true, false, Bool-cases, not, ◌&&◌, ◌||◌, ok,
  arith, ◌==◌,
}
use qbt.Nodes.{Val, reg, tmp, noclass, Insn, Blk}
use qbt.Ssa.Params.{Sets, need, generate, scan_insn, scan_insns}
use qbt.Ssa.Params.Tables.{reads, Table, Table-ext, add_val-Table, has_val-Table, remove_val-Table}

-- Some instruction writes the temporary.
abbrev pub writes : List Insn → ℕ → Bool
writes [] t = false
writes (i ∷ is) t = reads i.out t || writes is t

-- Some instruction reads the temporary before one has written it; `known` says that one has.
abbrev pub exposed : List Insn → Bool → ℕ → Bool
exposed [] known t = false
exposed (i ∷ is) known t =
    ((reads i.in0 t || reads i.in1 t) && not known) || exposed is (known || reads i.out t) t

-- Live in front of the block, if `after` is live behind it.
abbrev pub live : Blk → (ℕ → Bool) → ℕ → Bool
live b after t =
    exposed b.insns false t
    || (((reads b.cmp0 t || reads b.cmp1 t) || after t) && not (writes b.insns t))

pub record Tables (s : Sets) (g f r : ℕ → Bool) : Type 0 where
  pub generated : Table s.generated g
  pub forward : Table s.forward f
  pub required : Table s.required r

need_tmp :
    (u : ℕ) (s : Sets) (g f r : ℕ → Bool)
    → Tables s g f r
    → (s1 : Sets) × (need (tmp u) s ≡ ok s1) × Tables s1 g f (λ t. r t || (u == t && not (g t)))
unfolding need
need_tmp u s g f r h = elim (Bool-cases (g u)) [
  | inl known ↦ (
    s,
    rw (has_val-Table s.generated g u h.generated, known) refl,
    record {
      generated = h.generated;
      forward = h.forward;
      required = Table-ext s.required r (λ t. r t || (u == t && not (g t))) h.required (same known);
    },
  )
  | inr new ↦
      let (m, e, hm) = add_val-Table s.required r u h.required in
      (
        record s { required = m },
        rw (has_val-Table s.generated g u h.generated, new, e) refl,
        record {
          generated = h.generated;
          forward = h.forward;
          required =
              Table-ext m (λ t. r t || u == t) (λ t. r t || (u == t && not (g t))) hm (added new);
        },
      )
]
  where
    same : g u ≡ true → (t : ℕ) → r t ≡ r t || (u == t && not (g t))
    same known t = elim (Bool-cases (u == t)) [
      | inl e ↦ let at : u ≡ t = ground arith in ground (arith, ap g at)
      | inr e ↦ ground arith
    ]

    added : g u ≡ false → (t : ℕ) → r t || u == t ≡ r t || (u == t && not (g t))
    added new t = elim (Bool-cases (u == t)) [
      | inl e ↦ let at : u ≡ t = ground arith in ground (arith, ap g at)
      | inr e ↦ ground arith
    ]

pub Tables-ext :
    (s : Sets) (g f r g' f' r' : ℕ → Bool)
    → Tables s g f r
    → ((t : ℕ) → g t ≡ g' t)
    → ((t : ℕ) → f t ≡ f' t)
    → ((t : ℕ) → r t ≡ r' t)
    → Tables s g' f' r'
Tables-ext s g f r g' f' r' h eg ef er = record {
  generated = Table-ext s.generated g g' h.generated eg;
  forward = Table-ext s.forward f f' h.forward ef;
  required = Table-ext s.required r r' h.required er;
}

unneeded :
    (s : Sets) (g f r : ℕ → Bool) → Tables s g f r → Tables s g f (λ t. r t || (false && not (g t)))
unneeded s g f r h =
    Tables-ext s g f r g f (λ t. r t || (false && not (g t))) h (λ t. refl) (λ t. refl)
      (λ t. ground arith)

pub need-Tables :
    (v : Val) (s : Sets) (g f r : ℕ → Bool)
    → Tables s g f r
    → (s1 : Sets) × (need v s ≡ ok s1) × Tables s1 g f (λ t. r t || (reads v t && not (g t)))
unfolding need
need-Tables (tmp u) s g f r h = need_tmp u s g f r h
need-Tables (reg a) s g f r h = (s, refl, unneeded s g f r h)
need-Tables (Val.imm a b) s g f r h = (s, refl, unneeded s g f r h)
need-Tables (Val.mem a b) s g f r h = (s, refl, unneeded s g f r h)
need-Tables (Val.ref a) s g f r h = (s, refl, unneeded s g f r h)
need-Tables noclass s g f r h = (s, refl, unneeded s g f r h)

generate_tmp :
    (u : ℕ) (s : Sets) (g f r : ℕ → Bool)
    → Tables s g f r
    → (s1 : Sets) × (generate (tmp u) s ≡ ok s1)
      × Tables s1 (λ t. g t || u == t) (λ t. f t && not (u == t)) r
unfolding generate
generate_tmp u s g f r h =
    let (m, e, hm) = add_val-Table s.generated g u h.generated in
    elim (Bool-cases (f u)) [
      | inl passed ↦
          let (n, en, hn) = remove_val-Table s.forward f u h.forward in
          (
            record s { generated = m; forward = n },
            rw (e, has_val-Table s.forward f u h.forward, passed, en) refl,
            record { generated = hm; forward = hn; required = h.required },
          )
      | inr other ↦ (
        record s { generated = m },
        rw (e, has_val-Table s.forward f u h.forward, other) refl,
        record {
          generated = hm;
          forward = Table-ext s.forward f (λ t. f t && not (u == t)) h.forward (same other);
          required = h.required;
        },
      )
    ]
  where
    same : f u ≡ false → (t : ℕ) → f t ≡ f t && not (u == t)
    same other t = elim (Bool-cases (u == t)) [
      | inl e ↦ let at : u ≡ t = ground arith in ground (arith, ap f at)
      | inr e ↦ ground arith
    ]

unwritten :
    (s : Sets) (g f r : ℕ → Bool)
    → Tables s g f r
    → Tables s (λ t. g t || false) (λ t. f t && not false) r
unwritten s g f r h =
    Tables-ext s g f r (λ t. g t || false) (λ t. f t && not false) r h (λ t. ground arith)
      (λ t. ground arith) (λ t. refl)

generate-Tables :
    (v : Val) (s : Sets) (g f r : ℕ → Bool)
    → Tables s g f r
    → (s1 : Sets) × (generate v s ≡ ok s1)
      × Tables s1 (λ t. g t || reads v t) (λ t. f t && not (reads v t)) r
unfolding generate
generate-Tables (tmp u) s g f r h = generate_tmp u s g f r h
generate-Tables (reg a) s g f r h = (s, refl, unwritten s g f r h)
generate-Tables (Val.imm a b) s g f r h = (s, refl, unwritten s g f r h)
generate-Tables (Val.mem a b) s g f r h = (s, refl, unwritten s g f r h)
generate-Tables (Val.ref a) s g f r h = (s, refl, unwritten s g f r h)
generate-Tables noclass s g f r h = (s, refl, unwritten s g f r h)

pub scan_insns-Tables :
    (is : List Insn) (s : Sets) (g f r : ℕ → Bool)
    → Tables s g f r
    → (s1 : Sets) × (scan_insns is s ≡ ok s1)
      × Tables s1
          (λ t. g t || writes is t)
          (λ t. f t && not (writes is t))
          (λ t. r t || exposed is (g t) t)
unfolding scan_insns scan_insn
scan_insns-Tables [] s g f r h = (
  s,
  refl,
  Tables-ext s g f r _ _ _ h (λ t. ground arith) (λ t. ground arith) (λ t. ground arith),
)
scan_insns-Tables (i ∷ is) s g f r h =
    let (s1, e1, h1) = need-Tables i.in0 s g f r h in
    let (s2, e2, h2) = need-Tables i.in1 s1 g f (λ t. r t || (reads i.in0 t && not (g t))) h1 in
    let (s3, e3, h3) =
      generate-Tables i.out s2 g f
        (λ t. (r t || (reads i.in0 t && not (g t))) || (reads i.in1 t && not (g t))) h2 in
    let (s4, e4, h4) =
      scan_insns-Tables is s3 (λ t. g t || reads i.out t) (λ t. f t && not (reads i.out t))
        (λ t. (r t || (reads i.in0 t && not (g t))) || (reads i.in1 t && not (g t))) h3 in
    (
      s4,
      rw (e1, e2, e3) e4,
      Tables-ext s4 _ _ _ _ _ _ h4 (λ t. ground arith) (λ t. ground arith) (λ t. ground arith),
    )
