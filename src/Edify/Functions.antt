-- ===== src/Edify/Functions.antt =====
-- edify/expr.c: the functions that scripts call, and the convenience functions that evaluate
-- several arguments. `free` has no effect on the model.
pub mod Strtol
use screenbox_rockchip_recov.Prelude.{
  ℕ, zero, suc, ◌+◌, ◌-◌, ◌%◌, ◌^◌, Bool, true, false, ◌&&◌, ◌||◌, not, List, [], ◌∷◌, ◌++◌, Option,
  none, some, ltb, leb, ◌==◌, if◌then◌else◌, length, take, drop,
}
use screenbox_rockchip_recov.Prelude.Int.{ℤ, pos, negsuc, ltb_ℤ}
use screenbox_rockchip_recov.Prelude.Bytes.{Bytes, codes, str_eq, is_substring}
use screenbox_rockchip_recov.Edify.Run.{
  State, Run, fault, null, ok, M, ◌>>=◌, ◌>>◌, pure, Value, Arg, Function, Expr, node, Args, arg,
  set_errmsg, evaluate_value, evaluate, string_value, boolean_string,
}
use Strtol.{strtol}

abbrev pub truth : Bool → Bytes
truth b = if b then codes "t" else []

-- The first loop of `ConcatFn`: `strings[i] = Evaluate(state, argv[i])`.
unfoldable pub read_strings : List Arg → M (List Bytes)
read_strings [] = pure []
read_strings (a ∷ argv) = do s ← evaluate a; strings ← read_strings argv; pure (s ∷ strings)

-- Its second loop: `strcpy(result+p, strings[i]); p += strlen(strings[i]);`.
unfoldable pub copy_strings : Bytes → List Bytes → Bytes
copy_strings result [] = result
copy_strings result (s ∷ strings) = copy_strings (result ++ s) strings

unfoldable pub concat_fn : Function
concat_fn name argv =
    if length argv == 0
    then pure (string_value [])
    else do strings ← read_strings argv; pure (string_value (copy_strings [] strings))

unfoldable pub if_else_fn : Function
unfolding arg
if_else_fn name argv =
    let argc = length argv in
    if not (argc == 2) && not (argc == 3)
    then set_errmsg (codes "ifelse expects 2 or 3 arguments")
    else do
      a ← arg argv 0
      cond ← evaluate a
      if boolean_string cond == 1
          then arg argv 1 >>= evaluate_value
          else (if argc == 3 then arg argv 2 >>= evaluate_value else pure (string_value cond))

-- `msg ? msg : strdup("called abort()")`, where the evaluation of `msg` may have returned NULL.
unfoldable pub abort_fn : Function
abort_fn name [] s = set_errmsg (codes "called abort()") s
abort_fn name (a ∷ argv) s = elim (evaluate a s) [
  | fault ↦ fault
  | null s' ↦ set_errmsg (codes "called abort()") s'
  | ok msg s' ↦ set_errmsg msg s'
]

-- `memcpy(err_src + prefix_len, state->script + argv[i]->start, len)`
unfoldable pub copy_source : Arg → M Bytes
copy_source a s =
    if leb a.start a.end && leb a.end (length s.script)
    then ok (take (a.end - a.start) (drop a.start s.script)) s
    else fault

unfoldable pub assert_loop : List Arg → M Value
assert_loop [] = pure (string_value [])
assert_loop (a ∷ argv) = do
  v ← evaluate a
  let rest = assert_loop argv
  if boolean_string v == 0
      then (copy_source a >>= λ src. set_errmsg (codes "assert failed: " ++ src))
      else rest

unfoldable pub assert_fn : Function
assert_fn name argv = assert_loop argv

-- `sleep(v)` and `fputs(v, stdout)`. What `sleep` receives is strtol's `long`, narrowed to `int` and
-- taken as an `unsigned int`: its value modulo 2 ^ 32.
unfoldable pub to_unsigned : ℤ → ℕ
to_unsigned (pos n) = n % 2 ^ 32
to_unsigned (negsuc n) = (2 ^ 32 - 1) - n % 2 ^ 32

abbrev pub sleep_arg : Bytes → ℕ
sleep_arg val = to_unsigned (strtol val).0

unfoldable pub sleep : ℕ → M (Unit {0})
sleep v s = ok tt (record s { slept = s.slept ++ (v ∷ []) })

unfoldable pub fputs : Bytes → M (Unit {0})
fputs v s = ok tt (record s { stdout = s.stdout ++ v })

unfoldable pub sleep_fn : Function
unfolding arg
sleep_fn name argv = do
  a ← arg argv 0
  val ← evaluate a
  sleep (sleep_arg val)
  pure (string_value val)

unfoldable pub stdout_fn : Function
stdout_fn name [] = pure (string_value [])
stdout_fn name (a ∷ argv) = do v ← evaluate a; fputs v; stdout_fn name argv

unfoldable pub logical_and_fn : Function
unfolding arg
logical_and_fn name argv = do
  a ← arg argv 0
  left ← evaluate a
  if boolean_string left == 1 then arg argv 1 >>= evaluate_value else pure (string_value left)

unfoldable pub logical_or_fn : Function
unfolding arg
logical_or_fn name argv = do
  a ← arg argv 0
  left ← evaluate a
  if boolean_string left == 0 then arg argv 1 >>= evaluate_value else pure (string_value left)

unfoldable pub logical_not_fn : Function
unfolding arg
logical_not_fn name argv = do
  a ← arg argv 0
  val ← evaluate a
  pure (string_value (if boolean_string val == 0 then codes "t" else []))

unfoldable pub substring_fn : Function
unfolding arg
substring_fn name argv = do
  a ← arg argv 0
  needle ← evaluate a
  b ← arg argv 1
  haystack ← evaluate b
  pure (string_value (truth (is_substring needle haystack)))

unfoldable pub equality_fn : Function
unfolding arg
equality_fn name argv = do
  a ← arg argv 0
  left ← evaluate a
  b ← arg argv 1
  right ← evaluate b
  pure (string_value (truth (str_eq left right)))

unfoldable pub inequality_fn : Function
unfolding arg
inequality_fn name argv = do
  a ← arg argv 0
  left ← evaluate a
  b ← arg argv 1
  right ← evaluate b
  pure (string_value (truth (not (str_eq left right))))

unfoldable pub sequence_fn : Function
unfolding arg
sequence_fn name argv = do a ← arg argv 0; left ← evaluate_value a; b ← arg argv 1; evaluate_value b

-- `ReadArgs(state, argv, count, ...)`: the strings that the pointers receive.
unfoldable pub read_args : ℕ → List Arg → M (List Bytes)
read_args zero argv = pure []
read_args (suc count) [] = λ s. fault
read_args (suc count) (a ∷ argv) = do s ← evaluate a; args ← read_args count argv; pure (s ∷ args)

-- `left[0] == '\0' || *end != '\0'`
unfoldable pub is_not_int : Bytes → Bool
is_not_int s = length s == 0 || not (length (strtol s).1 == 0)

-- What is compared once both strings are read; `end` is tested for the left one first.
unfoldable pub less_than : Bytes → Bytes → Bool
less_than left right =
    if is_not_int left
    then false
    else (if is_not_int right then false else ltb_ℤ (strtol left).0 (strtol right).0)

unfoldable pub less_than_int_args : List Bytes → M Value
less_than_int_args (left ∷ right ∷ []) = pure (string_value (truth (less_than left right)))
less_than_int_args _ = λ s. fault

unfoldable pub less_than_int_fn : Function
less_than_int_fn name argv =
    if not (length argv == 2)
    then set_errmsg (codes "less_than_int expects 2 arguments")
    else read_args 2 argv >>= less_than_int_args

unfoldable pub greater_than_int_fn : Function
unfolding arg
greater_than_int_fn name argv =
    if not (length argv == 2)
    then set_errmsg (codes "greater_than_int expects 2 arguments")
    else do right ← arg argv 1; left ← arg argv 0; less_than_int_fn name (right ∷ left ∷ [])

unfoldable pub literal : Function
literal name argv = pure (string_value name)

-- `ReadValueArgs`
unfoldable pub read_value_args : ℕ → List Arg → M (List Value)
read_value_args zero argv = pure []
read_value_args (suc count) [] = λ s. fault
read_value_args (suc count) (a ∷ argv) = do
  v ← evaluate_value a
  args ← read_value_args count argv
  pure (v ∷ args)

-- `ReadVarArgs`
unfoldable pub read_var_args : List Arg → M (List Bytes)
read_var_args [] = pure []
read_var_args (a ∷ argv) = do s ← evaluate a; args ← read_var_args argv; pure (s ∷ args)

-- `ReadValueVarArgs`
unfoldable pub read_value_var_args : List Arg → M (List Value)
read_value_var_args [] = pure []
read_value_var_args (a ∷ argv) = do
  v ← evaluate_value a
  args ← read_value_var_args argv
  pure (v ∷ args)

-- `Build`: the node of an operator, whose source text `loc` covers.
unfoldable pub build : Function → ℕ × ℕ → Args → Expr
build fn loc argv = node fn (codes "(operator)") argv loc.0 loc.1
