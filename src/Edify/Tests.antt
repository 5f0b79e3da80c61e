-- ===== src/Edify/Tests.antt =====
-- edify/expr.c: runs of small scripts, and the theorems at concrete arguments.
use screenbox_rockchip_recov.Prelude.{
  ℕ, ◌≡◌, refl, Bool, true, [], ◌∷◌, none, some, arith, inl, ◌↔◌, ltb,
}
use screenbox_rockchip_recov.Prelude.Int.{negsuc}
use screenbox_rockchip_recov.Prelude.Bytes.{
  Bytes, codes, digits, decimal, is_substring, str_eq, starts_with, Occurs,
}
use screenbox_rockchip_recov.Edify.Run.{
  State, fault, null, ok, Arg, Expr, node, nil, cons, eval, arg, evaluate, error_abort, set_errmsg,
  string_value, boolean_string, val_blob,
}
use screenbox_rockchip_recov.Edify.Functions.Strtol.{
  strtol, read_digits, after_space, unsigned_part,
}
use screenbox_rockchip_recov.Edify.Functions.{
  truth, read_strings, copy_strings, concat_fn, if_else_fn, abort_fn, copy_source, assert_loop,
  assert_fn, to_unsigned, sleep, fputs, sleep_fn, stdout_fn, logical_and_fn, logical_or_fn,
  logical_not_fn, substring_fn, equality_fn, inequality_fn, sequence_fn, read_args, is_not_int,
  less_than, less_than_int_args, less_than_int_fn, greater_than_int_fn, literal,
}
use screenbox_rockchip_recov.Edify.Safety.{IsWellFormed, Tame}
use screenbox_rockchip_recov.Edify.Safety.Builtins.{assert, equality, lit}
use screenbox_rockchip_recov.Edify.Safety.Scripts.{IsScript, eval-Tame}
use screenbox_rockchip_recov.Edify.Laws.{
  call, if_else_fn-logical_and_fn, inequality_fn-logical_not_fn, concat_fn-append,
  assert_fn-sequence_fn, substring_fn-Occurs,
}
use screenbox_rockchip_recov.Edify.Numbers.{less_than_int_fn-digits}

open_all : Unit {0}
unfolding eval evaluate error_abort set_errmsg string_value boolean_string strtol read_digits
    after_space unsigned_part read_strings copy_strings concat_fn if_else_fn abort_fn copy_source
    assert_loop assert_fn to_unsigned sleep fputs sleep_fn stdout_fn logical_and_fn logical_or_fn
    logical_not_fn substring_fn equality_fn inequality_fn sequence_fn read_args is_not_int less_than
    less_than_int_args less_than_int_fn greater_than_int_fn literal arg is_substring str_eq
    starts_with digits decimal
open_all = tt

-- assert("a" == "b");
abbrev script : Bytes
script = codes "assert(a == b);"

abbrev lit_at : Bytes → ℕ → ℕ → Expr
lit_at s i j = node literal s nil i j

abbrev comparison : Expr
comparison =
    node equality_fn (codes "(operator)")
      (cons (lit_at (codes "a") 7 8) (cons (lit_at (codes "b") 12 13) nil)) 7 13

abbrev program : Expr
program = node assert_fn (codes "assert") (cons comparison nil) 0 14

abbrev start : State
start = record { script = script; errmsg = none; stdout = []; slept = [] }

program_runs :
    eval program start ≡ null (record start { errmsg = some (codes "assert failed: a == b") })
unfolding open_all
program_runs = refl

program-IsScript : IsScript script program
program-IsScript = (
  inl (assert 1),
  (
    (
      inl (equality 2 refl),
      (
        (inl (lit 0), tt, omega arith, omega arith),
        ((inl (lit 0), tt, omega arith, omega arith), tt),
      ),
      omega arith,
      omega arith,
    ),
    tt,
  ),
  omega arith,
  omega arith,
)

eval-Tame_example : Tame script IsWellFormed (eval program)
eval-Tame_example = eval-Tame script program program-IsScript

abbrev text : Bytes → Arg
text s = record { run = λ st. ok (record { type = 1; size = 0; bytes = s }) st; start = 0; end = 1 }

abbrev blob : Arg
blob = record {
  run = λ st. ok (record { type = val_blob; size = 0; bytes = [] }) st;
  start = 0;
  end = 1;
}

-- A blob where a string is wanted.
blob_refused :
    concat_fn (codes "concat") (text (codes "x") ∷ blob ∷ []) start
    ≡ null (record start { errmsg = some (codes "expecting string, got value type 2") })
unfolding open_all
blob_refused = refl

-- `sleep()` and `is_substring("a")` read past the end of `argv`.
sleep_without_argument : sleep_fn (codes "sleep") [] start ≡ fault
unfolding open_all
sleep_without_argument = refl

substring_with_one_argument :
    substring_fn (codes "is_substring") (text (codes "a") ∷ []) start ≡ fault
unfolding open_all
substring_with_one_argument = refl

strtol_runs : strtol (codes " -12x") ≡ (negsuc 11, codes "x")
unfolding open_all
strtol_runs = refl

if_else_is_and :
    if_else_fn (codes "ifelse") (text [] ∷ blob ∷ []) start
    ≡ logical_and_fn (codes "&&") (text [] ∷ blob ∷ []) start
if_else_is_and = if_else_fn-logical_and_fn (codes "ifelse") (codes "&&") (text []) blob start

inequality_at_inputs :
    inequality_fn (codes "!=") (text (codes "a") ∷ text [] ∷ []) start
    ≡ logical_not_fn
        (codes "!=")
        (call equality_fn (codes "!=") (text (codes "a") ∷ text [] ∷ []) ∷ [])
        start
inequality_at_inputs = inequality_fn-logical_not_fn (codes "!=") (text (codes "a")) (text []) start

concat_fn-append_example :
    concat_fn
      (codes "+")
      (call concat_fn (codes "+") (text (codes "a") ∷ [])
        ∷ call concat_fn (codes "+") (blob ∷ [])
        ∷ [])
      start
    ≡ concat_fn (codes "+") (text (codes "a") ∷ blob ∷ []) start
concat_fn-append_example = concat_fn-append (codes "+") (text (codes "a") ∷ []) (blob ∷ []) start

assert_in_sequence :
    assert_fn (codes "assert") (text (codes "t") ∷ text [] ∷ []) start
    ≡ sequence_fn
        (codes "assert")
        (call assert_fn (codes "assert") (text (codes "t") ∷ [])
          ∷ call assert_fn (codes "assert") (text [] ∷ [])
          ∷ [])
        start
assert_in_sequence = assert_fn-sequence_fn (codes "assert") (text (codes "t")) (text [] ∷ []) start

substring_fn-Occurs_example :
    (t : Bool) × (substring_fn
        (codes "is_substring")
        (text (codes "b") ∷ text (codes "abc") ∷ [])
        start
      ≡ ok (string_value (truth t)) start)
    × ((t ≡ true) ↔ Occurs (codes "b") (codes "abc"))
substring_fn-Occurs_example =
    substring_fn-Occurs (codes "is_substring") (text (codes "b")) (text (codes "abc")) (codes "b")
      (codes "abc") start start start (unfold evaluate in refl) (unfold evaluate in refl)

less_than_int_fn-digits_example :
    (less_than_int_fn (codes "x") (text (digits 3 99 []) ∷ text (digits 3 100 []) ∷ []) start
      ≡ ok (string_value (truth (ltb 99 100))) start)
    × (greater_than_int_fn (codes "x") (text (digits 3 100 []) ∷ text (digits 3 99 []) ∷ []) start
        ≡ ok (string_value (truth (ltb 99 100))) start)
less_than_int_fn-digits_example =
    less_than_int_fn-digits (codes "x") (text (digits 3 99 [])) (text (digits 3 100 [])) 2 2 99 100
      start start start (omega arith) (omega arith) (omega arith) (omega arith)
      (unfold evaluate in refl) (unfold evaluate in refl)
