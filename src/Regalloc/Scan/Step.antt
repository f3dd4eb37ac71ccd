-- ===== src/Regalloc/Scan/Step.antt =====
-- One round of the linear scan keeps the registers of overlapping lifetimes apart.
use qbt.Prelude.{
  ℕ, suc, ◌<◌, ◌≤◌, ◌≡◌, refl, ap, sym, ◌∙◌, ◌⊎◌, inl, inr, List, [], ◌∷◌, ◌++◌, true, false, some,
  ok, arith, ◌==◌, ltb, leb, get_elem?, set, if◌then◌else◌, All, Has, Has-append_left,
  Has-append_right,
}
use qbt.Nodes.{Val, tmp, reg, noclass, hasclass}
use qbt.Abi.Regs.{tr_map}
use qbt.Rules.{grow, has_rewrite_rule, add_rewrite_rule}
use qbt.Rules.Laws.{rule, rule-set, add_rewrite_rule-ok, has_rewrite_rule-eq}
use qbt.Regalloc.Lifetimes.{Lifetime, get_hint}
use qbt.Regalloc.Scan.{
  Scan, clashes, scan_prev, scan_from, build_active, build_active_between, find_free_reg,
  highest_sreg, sreg_place, hint_free, take_free, assign, scan_step,
}
use qbt.Regalloc.Scan.Active.{key, Sorted, Part, from, Closed, scan-Closed, scan-covers}
use qbt.Regalloc.Scan.Free.{find_free_reg-ok, not-Has_of_clashes}
use qbt.Regalloc.Scan.Reserved.{Placed, RuleFits, bare, ruled, Reserves, build_reserved-ok}

-- Both values are live at some position.
abbrev pub Overlap : Lifetime → Lifetime → Type 0
Overlap a b = (a.start < b.end) × (b.start < a.end)

-- The lifetime belongs to temporary number `key` and has a use behind its definition.
pub record IsProper (k : Lifetime) : Type 0 where
  pub temp : k.v ≡ tmp (key k)
  pub nonempty : k.start < k.end

-- The lifetimes of `L` that were passed are in `D`, those to come in `Q`; `σ` is the start of the
-- last one passed and `c` their number.
pub record Inv (L D Q : List Lifetime) (σ c : ℕ) (s : Scan) : Type 0 where
  pub split : (k : Lifetime) → Has k L → Has k D ⊎ Has k Q
  pub member : (k : Lifetime) → Has k D → Has k L
  pub order : (k r : Lifetime) → Has k D → Has r L → Has r Q → key k < key r
  pub past : (k : Lifetime) → Has k D → k.start ≤ σ
  pub ahead : (k : Lifetime) → Has k L → Has k Q → σ ≤ k.start
  pub closed : Closed L σ [] s.prev_active
  pub covered : (k : Lifetime) → Has k D → σ < k.end → Has k s.prev_active
  pub placed :
      (k : Lifetime)
      → Has k D
      → (n : ℕ) × (rule s.rmap (key k) ≡ reg n) × Placed c n × (sreg_place n ≤ s.max_callee_save)
  pub free : (k : Lifetime) → Has k L → Has k Q → rule s.rmap (key k) ≡ noclass
  pub apart :
      (a b : Lifetime) (n m : ℕ)
      → Has a D
      → Has b D
      → key a < key b
      → Overlap a b
      → rule s.rmap (key a) ≡ reg n
      → rule s.rmap (key b) ≡ reg m
      → n ≡ m
      → ⊥

Closed-member :
    (L : List Lifetime) (σ : ℕ) (seen A : List Lifetime) → Closed L σ seen A → All (λ m. Has m L) A
Closed-member L σ seen [] h = tt
Closed-member L σ seen (m ∷ A) (here, _, h) = (here, Closed-member L σ (m ∷ seen) A h)

pub reg-injective : {a b : ℕ} → reg a ≡ reg b → a ≡ b
reg-injective h = cc

All-map :
    {A : Type 0} (P Q : A → Type 0) → ((a : A) → P a → Q a) → (xs : List A) → All P xs → All Q xs
All-map P Q f [] h = tt
All-map P Q f (x ∷ xs) (hx, h) = (f x hx, All-map P Q f xs h)

module _ (L : List Lifetime) (sorted : Sorted L) (proper : (k : Lifetime) → Has k L → IsProper k)
    (hints : List Val) (unhinted : (k : Lifetime) → Has k L → get_hint hints k.v ≡ noclass) where
  -- The rule of a lifetime, under the invariant.
  rule_fits :
      (D Q : List Lifetime) (σ c : ℕ) (s : Scan)
      → Inv L D Q σ c s
      → (k : Lifetime) → Has k L
      → RuleFits s.rmap c k
  rule_fits D Q σ c s inv k hk = elim (inv.split k hk) [
    | inl done ↦
        let (n, e, placed, _) = inv.placed k done in ruled (key k) n (proper k hk).temp e placed
    | inr ahead ↦ bare (key k) (proper k hk).temp (inv.free k hk ahead)
  ]

  module _ (D : List Lifetime) {l : Lifetime} {Q : List Lifetime} (here : Has l L)
      (used : 0 < l.used) (asc : (k : Lifetime) → Has k L → Has k Q → key l < key k)
      (part : Part L Q) (σ c : ℕ) (s : Scan) (inv : Inv L D (l ∷ Q) σ c s) where
    abbrev active : List Lifetime
    active = scan_prev s.prev_active l.start l.end ++ scan_from (l ∷ Q) l.start l.end

    on : σ ≤ l.start
    on = inv.ahead l here (inl refl)

    active-Closed : Closed L l.start [] active
    active-Closed =
        scan-Closed L sorted l.start l.end (from here used asc part) σ on s.prev_active [] []
          inv.closed (λ k hk a h. h)
          λ k hk. elim (inv.split k hk) [
            | inl done ↦ inr (λ a. inr (inv.covered k done (omega (arith, on))))
            | inr ahead ↦ inl ahead
          ]

    active-covers : (k : Lifetime) → Has k D → l.start < k.end → Has k active
    active-covers k done alive =
        let nonempty = (proper l here).nonempty in
        let early = inv.past k done in
        elim (scan-covers L sorted l.start l.end (from here used asc part) σ on s.prev_active [] []
          inv.closed (λ k hk a h. h) k (inv.member k done) (alive, omega (arith, on))
          (inr (inv.covered k done (omega (arith, on))))) [
            | inl h ↦ absurd h
            | inr h ↦ Has-append_left k _ _ h
          ]

    self : Has l active
    unfolding scan_from
    self =
        let nonempty = (proper l here).nonempty in
        let is_used : (l.used == 0) ≡ false = ground arith in
        let lives : leb l.end l.start ≡ false = ground arith in
        Has-append_right l (scan_prev s.prev_active l.start l.end) _
          (rw (is_used, lives) (inl refl))

    reserves : Reserves active s.rmap c
    reserves = build_reserved-ok s.rmap c active (
        All-map _ _ (rule_fits D (l ∷ Q) σ c s inv) active
          (Closed-member L l.start [] active active-Closed))

    -- The state behind the round, with `f` the register that was found.
    abbrev after : ℕ → Scan
    after f = record {
      max_callee_save =
          if ltb s.max_callee_save (sreg_place f) then sreg_place f else s.max_callee_save;
      prev_active = active;
      rmap = set (grow noclass s.rmap (key l)) (key l) (reg f);
    }

    rule_self : (f : ℕ) (k : Lifetime) → k ≡ l → rule (after f).rmap (key k) ≡ reg f
    rule_self f k p =
        let met : (key l == key k) ≡ true = ground (arith, ap key p) in
        rule-set s.rmap (key l) (key k) (reg f) ∙ rw met

    rule_other : (f : ℕ) (j : ℕ) → (key l ≡ j → ⊥) → rule (after f).rmap j ≡ rule s.rmap j
    rule_other f j ne =
        let other : (key l == j) ≡ false = ground arith in
        rule-set s.rmap (key l) j (reg f) ∙ rw other

    step_takes :
        (f : ℕ)
        → find_free_reg reserves.reserved ≡ ok (reg f)
        → scan_step hints l Q s ≡ ok (after f)
    unfolding scan_step assign hint_free take_free highest_sreg build_active build_active_between
    step_takes f found =
        let is_used : (l.used == 0) ≡ false = ground arith in
        let no_rule : has_rewrite_rule s.rmap l.v ≡ false =
          has_rewrite_rule-eq s.rmap l.v ∙ ap hasclass (inv.free l here (inl refl)) in
        let added : add_rewrite_rule s.rmap l.v (reg f) ≡ ok (after f).rmap =
          ap (λ v. add_rewrite_rule s.rmap v (reg f)) (proper l here).temp
          ∙ add_rewrite_rule-ok s.rmap (key l) f in
        rw (is_used, no_rule, reserves.built, unhinted l here, found, added)

    module _ (f p : ℕ) (at : get_elem? tr_map p ≡ some f) (near : p ≤ c)
        (unreserved : clashes reserves.reserved (reg f) ≡ false) where
      earlier : (k : Lifetime) → Has k D → key k < key l
      earlier k done = inv.order k l done here (inl refl)

      rule_done : (k : Lifetime) → Has k D → rule (after f).rmap (key k) ≡ rule s.rmap (key k)
      rule_done k done = rule_other f (key k) (λ e. omega (arith, earlier k done))

      -- The new register is not that of an earlier lifetime that is still alive.
      apart_new :
          (a : Lifetime) (n : ℕ)
          → Has a D
          → l.start < a.end
          → rule (after f).rmap (key a) ≡ reg n
          → n ≡ f
          → ⊥
      apart_new a n done alive e same =
          let kept : rule s.rmap (key a) ≡ reg n = sym (rule_done a done) ∙ e in
          let used_a = sorted.used a (inv.member a done) in
          not-Has_of_clashes reserves.reserved f unreserved
            (rw same at (reserves.holds a n (active-covers a done alive) used_a kept))

      after-Placed :
          (k : Lifetime)
          → Has k (l ∷ D)
          → (n : ℕ) × (rule (after f).rmap (key k) ≡ reg n)
            × Placed (suc c) n
            × (sreg_place n ≤ (after f).max_callee_save)
      after-Placed k (inl e) =
          (f, rule_self f k e, record { place = p; at = at; below = omega arith }, ground arith)
      after-Placed k (inr done) =
          let (n, e, placed, saved) = inv.placed k done in
          (
            n,
            rule_done k done ∙ e,
            record { place = placed.place; at = placed.at; below = omega (arith, placed.below) },
            ground arith,
          )

      after-apart :
          (a b : Lifetime) (n m : ℕ)
          → Has a (l ∷ D)
          → Has b (l ∷ D)
          → key a < key b
          → Overlap a b
          → rule (after f).rmap (key a) ≡ reg n
          → rule (after f).rmap (key b) ≡ reg m
          → n ≡ m
          → ⊥
      after-apart a b n m (inl ea) (inl eb) lt over ra rb same = omega (arith, ap key ea, ap key eb)
      after-apart a b n m (inl ea) (inr hb) lt over ra rb same =
          omega (arith, ap key ea, earlier b hb)
      after-apart a b n m (inr ha) (inl eb) lt over ra rb same =
          let starts = ap (λ (k : Lifetime). k.start) eb in
          let is_f : reg m ≡ reg f = sym rb ∙ rule_self f b eb in
          apart_new a n ha (omega arith) ra (same ∙ reg-injective is_f)
      after-apart a b n m (inr ha) (inr hb) lt over ra rb same =
          inv.apart a b n m ha hb lt over (sym (rule_done a ha) ∙ ra) (sym (rule_done b hb) ∙ rb)
            same

      after-Inv : Inv L (l ∷ D) Q l.start (suc c) (after f)
      after-Inv = record {
        split = λ k hk. elim (inv.split k hk) [
          | inl done ↦ inl (inr done)
          | inr (inl e) ↦ inl (inl e)
          | inr (inr h) ↦ inr h
        ];
        member = λ k done. elim done [ inl e ↦ rw e here | inr h ↦ inv.member k h ];
        order = λ k r done hr ahead. elim done [
          | inl e ↦ omega (arith, ap key e, asc r hr ahead)
          | inr h ↦ inv.order k r h hr (inr ahead)
        ];
        past = λ k done. elim done [
          | inl e ↦ omega (arith, ap (λ (x : Lifetime). x.start) e)
          | inr h ↦ omega (arith, inv.past k h, on)
        ];
        ahead = λ k hk h. sorted.up l k here hk (asc k hk h);
        closed = active-Closed;
        covered = λ k done alive. elim done [ inl e ↦ rw e self | inr h ↦ active-covers k h alive ];
        placed = after-Placed;
        free =
            λ k hk h. rule_other f (key k) (λ e. omega (arith, asc k hk h)) ∙ inv.free k hk (inr h);
        apart = after-apart;
      }

    -- While a register is left, the round succeeds and keeps the invariant.
    pub step-Inv :
        c < 72 → (t : Scan) × (scan_step hints l Q s ≡ ok t) × Inv L (l ∷ D) Q l.start (suc c) t
    step-Inv room =
        let (f, p, found, at, near, free) =
          find_free_reg-ok reserves.reserved c room reserves.below in
        (after f, step_takes f found, after-Inv f p at near free)
