-- ===== src/Abi/Lowered.antt =====
-- What `abi0` does to a function, and where the two sides of a call meet.
use qbt.Prelude.{
  ℕ, ◌<◌, ◌≡◌, refl, ap, ◌∙◌, ◌↔◌, List, [], ◌∷◌, map, false, Result, ok, ok-injective, sym,
  bind-ok, then-ok, All, traverse,
}
use qbt.Prelude.Int.{ℤ}
use qbt.Nodes.{InsnType, Val, reg, Insn, Blk, Fn}
use qbt.Abi.Regs.{arg_reg, arg_reg-injective}
use qbt.Abi.{
  nth_ar, stated_index, rewrite_param, rewrite_retval, rewrite_arg, rewrite_retarg, pass_value,
  lower_as, lower, abi0_blk, abi0,
}
use qbt.Abi.Passed.{Lowerable, index_of, Indexed-below, read-eq, pass_value-Through}
use qbt.Abi.Range.{is_pseudo, lowered, lowered-real, lower-lowered}

-- A traversal with a function that succeeds on every element is a map.
traverse-map :
    {A B : Type 0} (P : A → Type 0) (f : A → Result B) (g : A → B)
    → ((a : A) → P a → f a ≡ ok (g a))
    → (xs : List A) → All P xs
    → traverse f xs ≡ ok (map g xs)
traverse-map P f g step [] h = refl
traverse-map P f g step (x ∷ xs) (hx, hs) = rw (step x hx, traverse-map P f g step xs hs) refl

All-map :
    {A B : Type 0} (Q : B → Type 0) (g : A → B)
    → ((a : A) → Q (g a))
    → (xs : List A) → All Q (map g xs)
All-map Q g h [] = tt
All-map Q g h (x ∷ xs) = (h x, All-map Q g h xs)

abbrev pub BlkLowerable : Blk → Type 0
BlkLowerable b = All Lowerable b.insns

-- No argument or result instruction is left.
abbrev pub BlkLowered : Blk → Type 0
BlkLowered b = All (λ (i : Insn). is_pseudo i.type ≡ false) b.insns

-- A block with each instruction replaced, in its place, and all else kept.
abbrev pub lowered_blk : Blk → Blk
lowered_blk b = record b { insns = map lowered b.insns }

abi0_blk-lowered : (b : Blk) → BlkLowerable b → abi0_blk b ≡ ok (lowered_blk b)
unfolding abi0_blk
abi0_blk-lowered b h = rw (traverse-map Lowerable lower lowered lower-lowered b.insns h) refl

lowered_blk-BlkLowered : (b : Blk) → BlkLowered (lowered_blk b)
lowered_blk-BlkLowered b = All-map _ lowered lowered-real b.insns

-- If every instruction of a function is acceptable, `abi0` succeeds, and its result is the function
-- with each instruction replaced, in its place, by the move or copy described, or kept, with a call
-- marked as both set up and torn down; everything else of the blocks and of the function is as it
-- was. No argument or result instruction is left.
pub abi0-ok :
    (f : Fn)
    → All BlkLowerable f.blks
    → (abi0 f ≡ ok (record f { blks = map lowered_blk f.blks }))
      × All BlkLowered (map lowered_blk f.blks)
unfolding abi0
abi0-ok f h = (
  rw (traverse-map BlkLowerable abi0_blk lowered_blk abi0_blk-lowered f.blks h) refl,
  All-map BlkLowered lowered_blk lowered_blk-BlkLowered f.blks,
)

abbrev IndexReg : Val → Val → Type 0
IndexReg i r = (r ≡ reg (arg_reg (index_of i))) × (index_of i < 24)

read-IndexReg :
    (i : Val) {n : ℤ} {r x : Val} → stated_index i ≡ ok n → nth_ar n ≡ ok r → x ≡ r → IndexReg i x
read-IndexReg i {n} {r} h e same =
    let (indexed, at) = read-eq i {n = n} {r = r} h e in (same ∙ at, Indexed-below i indexed)

-- The register that a sender writes and a receiver reads.
arg-out : (n : Insn) {m : Insn} → rewrite_arg n ≡ ok m → IndexReg n.in1 m.out
unfolding rewrite_arg
arg-out n {m} h =
    let (k, e1, h1) = bind-ok (stated_index n.in1) _ (then-ok _ _ h) in
    let (i, made, h2) = bind-ok (pass_value k n.in0) _ h1 in
    let (_, (r, e2, out)) = pass_value-Through k n.in0 {m = i} made in
    read-IndexReg n.in1 {n = k} {r = r} e1 e2
      (ap (λ (t : Insn). t.out) (sym (ok-injective h2)) ∙ out)

retarg-out : (n : Insn) {m : Insn} → rewrite_retarg n ≡ ok m → IndexReg n.in1 m.out
unfolding rewrite_retarg
retarg-out n {m} h =
    let (k, e1, made) = bind-ok (stated_index n.in1) _ (then-ok _ _ h) in
    let (_, (r, e2, out)) = pass_value-Through k n.in0 {m = m} made in
    read-IndexReg n.in1 {n = k} {r = r} e1 e2 out

param-in : (n : Insn) {m : Insn} → rewrite_param n ≡ ok m → IndexReg n.in1 m.in0
unfolding rewrite_param
param-in n {m} h =
    let (k, e1, h1) = bind-ok (stated_index n.in1) _ (then-ok _ _ h) in
    let (r, e2, made) = bind-ok (nth_ar k) _ h1 in
    read-IndexReg n.in1 {n = k} {r = r} e1 e2 (ap (λ (t : Insn). t.in0) (sym (ok-injective made)))

retval-in : (n : Insn) {m : Insn} → rewrite_retval n ≡ ok m → IndexReg n.in1 m.in0
unfolding rewrite_retval
retval-in n {m} h =
    let (k, e1, h1) = bind-ok (stated_index n.in1) _ (then-ok _ _ h) in
    let (r, e2, made) = bind-ok (nth_ar k) _ h1 in
    read-IndexReg n.in1 {n = k} {r = r} e1 e2 (ap (λ (t : Insn). t.in0) (sym (ok-injective made)))

-- The instruction that sends a value over a call or a return, and the one that receives it.
pub data Pairs : InsnType → InsnType → Type 0 where
  arguments : Pairs InsnType.arg InsnType.param
  results : Pairs InsnType.retarg InsnType.retval

lower-out :
    {ty ty' : InsnType} (n : Insn) {m : Insn}
    → Pairs ty ty'
    → n.type ≡ ty
    → lower n ≡ ok m
    → IndexReg n.in1 m.out
unfolding lower lower_as
lower-out n {m} arguments q h = arg-out n {m = m} (sym (ap (λ t. lower_as t n) q) ∙ h)
lower-out n {m} results q h = retarg-out n {m = m} (sym (ap (λ t. lower_as t n) q) ∙ h)

lower-in :
    {ty ty' : InsnType} (n : Insn) {m : Insn}
    → Pairs ty ty'
    → n.type ≡ ty'
    → lower n ≡ ok m
    → IndexReg n.in1 m.in0
unfolding lower lower_as
lower-in n {m} arguments q h = param-in n {m = m} (sym (ap (λ t. lower_as t n) q) ∙ h)
lower-in n {m} results q h = retval-in n {m = m} (sym (ap (λ t. lower_as t n) q) ∙ h)

reg-injective : {a b : ℕ} → reg a ≡ reg b → a ≡ b
reg-injective h = cc

-- A call and the called function, or a return and the call, agree on registers: the sender of one
-- side writes the register that the receiver of the other side reads exactly when the two state
-- the same index.
pub lower-Pairs :
    (n p : Insn) {m q : Insn}
    → Pairs n.type p.type
    → lower n ≡ ok m
    → lower p ≡ ok q
    → (m.out ≡ q.in0) ↔ (index_of n.in1 ≡ index_of p.in1)
lower-Pairs n p pair hn hp =
    let (out, below) = lower-out n pair refl hn in
    let (received, below') = lower-in p pair refl hp in
    (
      λ e.
          arg_reg-injective (index_of n.in1) (index_of p.in1) below below'
            (reg-injective (sym out ∙ e ∙ received)),
      λ e. out ∙ ap (λ t. reg (arg_reg t)) e ∙ sym received,
    )
