-- ===== src/Abi/Regs.antt =====
-- include/qbt/abi.h: the registers of the ABI by number, and the arrays of registers.
use qbt.Prelude.{
  ℕ, zero, suc, ◌+◌, ◌<◌, ◌≤◌, ◌≡◌, refl, ap, ◌∙◌, List, [], ◌∷◌, ◌++◌, map, none, some, get_elem?,
  ltb, arith, if◌then◌else◌,
}

-- The stack pointer, the frame pointer and the return address.
abbrev pub rsp : ℕ
rsp = 1

abbrev pub rfp : ℕ
rfp = 2

abbrev pub rra : ℕ
rra = 26

-- The registers that the compiler keeps for itself.
abbrev pub rtmp0 : ℕ
rtmp0 = 44

abbrev pub rtmp1 : ℕ
rtmp1 = 62

abbrev pub rtmp2 : ℕ
rtmp2 = 80

-- RA0 to RA23: x4 to x10, then x27 to x43
abbrev pub arg_reg : ℕ → ℕ
arg_reg k = if ltb k 7 then 4 + k else 20 + k

-- RT0 to RT23: x11 to x17, then x45 to x61
abbrev pub tmp_reg : ℕ → ℕ
tmp_reg k = if ltb k 7 then 11 + k else 38 + k

-- RS0 to RS23: x18 to x24, then x63 to x79
abbrev pub save_reg : ℕ → ℕ
save_reg k = if ltb k 7 then 18 + k else 56 + k

-- `n` numbers from `i` on
unfoldable pub upto : ℕ → ℕ → List ℕ
upto i zero = []
upto i (suc n) = i ∷ upto (suc i) n

-- `ar_map` of src/abi.c
unfoldable pub ar_map : List ℕ
unfolding upto
ar_map = map arg_reg (upto 0 24)

-- `tr_map` of src/regalloc.c
unfoldable pub tr_map : List ℕ
unfolding upto
tr_map = map tmp_reg (upto 0 24) ++ (map save_reg (upto 0 24) ++ map arg_reg (upto 0 24))

get_elem?-upto : (f : ℕ → ℕ) (i n k : ℕ) → k < n → get_elem? (map f (upto i n)) k ≡ some (f (i + k))
unfolding upto
get_elem?-upto f i zero k h = absurd (omega arith)
get_elem?-upto f i (suc n) zero h = ap (λ t. some (f t)) (omega arith)
get_elem?-upto f i (suc n) (suc k) h =
    get_elem?-upto f (suc i) n k (omega arith) ∙ ap (λ t. some (f t)) (omega arith)

get_elem?-upto_end : (f : ℕ → ℕ) (i n k : ℕ) → n ≤ k → get_elem? (map f (upto i n)) k ≡ none
unfolding upto
get_elem?-upto_end f i zero k h = refl
get_elem?-upto_end f i (suc n) zero h = absurd (omega arith)
get_elem?-upto_end f i (suc n) (suc k) h = get_elem?-upto_end f (suc i) n k (omega arith)

pub get_elem?-ar_map : (k : ℕ) → k < 24 → get_elem? ar_map k ≡ some (arg_reg k)
unfolding ar_map
get_elem?-ar_map k h = get_elem?-upto arg_reg 0 24 k h ∙ ap (λ t. some (arg_reg t)) (omega arith)

pub get_elem?-ar_map_end : (k : ℕ) → 24 ≤ k → get_elem? ar_map k ≡ none
unfolding ar_map
get_elem?-ar_map_end k h = get_elem?-upto_end arg_reg 0 24 k h

pub arg_reg-injective : (j k : ℕ) → j < 24 → k < 24 → arg_reg j ≡ arg_reg k → j ≡ k
arg_reg-injective j k hj hk e = ground arith
