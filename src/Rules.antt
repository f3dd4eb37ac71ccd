-- ===== src/Rules.antt =====
-- The tables that the passes index by a temporary's number: vectors of values, `noclass` where
-- nothing is known. src/regalloc.c, src/ssa.c and src/correct.c each have a copy of these helpers;
-- what differs is what they assert of the value that is stored.
pub mod Laws
use qbt.Prelude.{
  ℕ, zero, suc, ◌-◌, List, [], ◌∷◌, ◌++◌, Bool, true, false, Result, ok, ◌>>=◌, ◌>>◌, assert, leb,
  length, get_or, set, if◌then◌else◌,
}
use qbt.Seq.{vec_at, vec_put, vec_append}
use qbt.Nodes.{Val, noclass, is_tmp, is_reg, hasclass, r_of}

-- while (vec_len(xs) <= r) vec_append(xs, d); in as many rounds as are needed
abbrev append_rounds {ℓ} : {A : Type ℓ} → ℕ → A → List A → List A
append_rounds zero d xs = xs
append_rounds (suc k) d xs = append_rounds k d (vec_append xs d)

unfoldable pub grow {ℓ} : {A : Type ℓ} → A → List A → ℕ → List A
grow d xs r = append_rounds (suc r - length xs) d xs

unfoldable pub has_rewrite_rule : List Val → Val → Bool
has_rewrite_rule rmap t =
    if leb (length rmap) (r_of t) then false else hasclass (get_or rmap (r_of t) noclass)

unfoldable pub rewrite_tmp : List Val → Val → Result Val
rewrite_tmp rmap t = do assert (is_tmp t); r ← vec_at rmap (r_of t); assert (hasclass r); ok r

-- The copy of src/regalloc.c: rules lead to registers.
unfoldable pub add_rewrite_rule : List Val → Val → Val → Result (List Val)
add_rewrite_rule rmap from to = do
  assert (is_tmp from)
  assert (is_reg to)
  ok (set (grow noclass rmap (r_of from)) (r_of from) to)
