-- ===== src/Edify/Safety/Builtins.antt =====
-- edify/expr.c: the functions of the table and of the operators, with the number of arguments at
-- which each is safe.
use screenbox_rockchip_recov.Prelude.{
  ℕ, zero, suc, ◌≤◌, ◌<◌, ◌≡◌, refl, List, [], ◌∷◌, ◌++◌, append-nil, arith, length, ◌==◌, not,
  ◌&&◌, le→leb, ◌∙◌, ap,
}
use screenbox_rockchip_recov.Prelude.Bytes.{Bytes, codes}
use screenbox_rockchip_recov.Edify.Run.{
  Run, fault, null, ok, M, ◌>>=◌, Arg, Function, arg, evaluate, evaluate_value, set_errmsg,
  string_value, boolean_string,
}
use screenbox_rockchip_recov.Edify.Functions.{
  read_strings, concat_fn, if_else_fn, abort_fn, copy_source, assert_loop, assert_fn, sleep,
  sleep_arg, fputs, sleep_fn, stdout_fn, logical_and_fn, logical_or_fn, logical_not_fn,
  substring_fn, equality_fn, inequality_fn, sequence_fn, read_args, less_than_int_args,
  less_than_int_fn, greater_than_int_fn, literal,
}
use screenbox_rockchip_recov.Edify.Safety.{
  Grows-refl, Post, Post-trans, IsWellFormed, Tame, Tame-bind, Tame-if, Tame-cases, pure-Tame,
  set_errmsg-Tame, ArgOk, AllOk, IsSafe, arg-Tame, evaluate-Tame,
}

abbrev AnyBytes : Bytes → Type 0
AnyBytes _ = Unit

module _ (src : Bytes) where
  -- `Evaluate(state, argv[i])`
  eval_arg-Tame {ℓ} :
      {B : Type ℓ} (Q : B → Type 0) (argv : List Arg) (i : ℕ) (k : Bytes → M B)
      → i < length argv
      → AllOk src argv
      → ((s : Bytes) → Tame src Q (k s))
      → Tame src Q (arg argv i >>= λ a. evaluate a >>= k)
  eval_arg-Tame Q argv i k h all hk =
      Tame-bind src (ArgOk src) Q (arg argv i) _ (arg-Tame src argv i h all)
        λ a w. Tame-bind src AnyBytes Q (evaluate a) k (evaluate-Tame src a w) λ s _. hk s

  -- `EvaluateValue(state, argv[i])`
  value_arg-Tame :
      (argv : List Arg) (i : ℕ)
      → i < length argv
      → AllOk src argv
      → Tame src IsWellFormed (arg argv i >>= evaluate_value)
  value_arg-Tame argv i h all =
      Tame-bind src (ArgOk src) IsWellFormed (arg argv i) evaluate_value (arg-Tame src argv i h all)
        λ a w. w.runs

  string-Tame : (s : Bytes) → Tame src IsWellFormed (λ st. ok (string_value s) st)
  unfolding string_value
  string-Tame s = pure-Tame src IsWellFormed (string_value s) (λ _. refl)

  logical_and_fn-IsSafe : IsSafe src logical_and_fn 2
  unfolding logical_and_fn
  logical_and_fn-IsSafe name argv n all =
      eval_arg-Tame IsWellFormed argv 0 _ (omega arith) all λ left.
        Tame-if src IsWellFormed (boolean_string left == 1) _ _
          (value_arg-Tame argv 1 (omega arith) all) (string-Tame left)

  logical_or_fn-IsSafe : IsSafe src logical_or_fn 2
  unfolding logical_or_fn
  logical_or_fn-IsSafe name argv n all =
      eval_arg-Tame IsWellFormed argv 0 _ (omega arith) all λ left.
        Tame-if src IsWellFormed (boolean_string left == 0) _ _
          (value_arg-Tame argv 1 (omega arith) all) (string-Tame left)

  logical_not_fn-IsSafe : IsSafe src logical_not_fn 1
  unfolding logical_not_fn
  logical_not_fn-IsSafe name argv n all =
      eval_arg-Tame IsWellFormed argv 0 _ (omega arith) all λ val. string-Tame _

  substring_fn-IsSafe : IsSafe src substring_fn 2
  unfolding substring_fn
  substring_fn-IsSafe name argv n all =
      eval_arg-Tame IsWellFormed argv 0 _ (omega arith) all
        λ needle. eval_arg-Tame IsWellFormed argv 1 _ (omega arith) all λ haystack. string-Tame _

  equality_fn-IsSafe : IsSafe src equality_fn 2
  unfolding equality_fn
  equality_fn-IsSafe name argv n all =
      eval_arg-Tame IsWellFormed argv 0 _ (omega arith) all
        λ left. eval_arg-Tame IsWellFormed argv 1 _ (omega arith) all λ right. string-Tame _

  inequality_fn-IsSafe : IsSafe src inequality_fn 2
  unfolding inequality_fn
  inequality_fn-IsSafe name argv n all =
      eval_arg-Tame IsWellFormed argv 0 _ (omega arith) all
        λ left. eval_arg-Tame IsWellFormed argv 1 _ (omega arith) all λ right. string-Tame _

  sequence_fn-IsSafe : IsSafe src sequence_fn 2
  unfolding sequence_fn
  sequence_fn-IsSafe name argv n all =
      Tame-bind src (ArgOk src) IsWellFormed (arg argv 0) _ (arg-Tame src argv 0 (omega arith) all)
        λ a w.
          Tame-bind src IsWellFormed IsWellFormed a.run _ w.runs
            λ left _. value_arg-Tame argv 1 (omega arith) all

  literal-IsSafe : (n : ℕ) → IsSafe src literal n
  unfolding literal
  literal-IsSafe n name argv e all = string-Tame name

  sleep-Tame : (v : ℕ) → Tame src (λ _. Unit {0}) (sleep v)
  unfolding sleep
  sleep-Tame v s e =
      (record { script = refl; printed = ([], rw append-nil); slept = (v ∷ [], refl) }, tt)

  fputs-Tame : (v : Bytes) → Tame src (λ _. Unit {0}) (fputs v)
  unfolding fputs
  fputs-Tame v s e =
      (record { script = refl; printed = (v, refl); slept = ([], rw append-nil) }, tt)

  sleep_fn-IsSafe : IsSafe src sleep_fn 1
  unfolding sleep_fn
  sleep_fn-IsSafe name argv n all = eval_arg-Tame IsWellFormed argv 0 _ (omega arith) all λ val.
      Tame-bind src (λ _. Unit {0}) IsWellFormed (sleep (sleep_arg val))
        (λ _ st. ok (string_value val) st) (sleep-Tame (sleep_arg val)) λ _ _. string-Tame val

  stdout_fn-IsSafe : (n : ℕ) → IsSafe src stdout_fn n
  unfolding stdout_fn
  stdout_fn-IsSafe n name [] e all = string-Tame []
  stdout_fn-IsSafe n name (a ∷ argv) e all =
      Tame-bind src AnyBytes IsWellFormed (evaluate a) _ (evaluate-Tame src a all.0) λ v _.
        Tame-bind src (λ _. Unit {0}) IsWellFormed (fputs v) _ (fputs-Tame v)
          λ _ _. stdout_fn-IsSafe (length argv) name argv refl all.1

  AnyList : List Bytes → Type 0
  AnyList _ = Unit

  read_strings-Tame : (argv : List Arg) → AllOk src argv → Tame src AnyList (read_strings argv)
  unfolding read_strings AnyList
  read_strings-Tame [] all = pure-Tame src AnyList [] tt
  read_strings-Tame (a ∷ argv) all =
      Tame-bind src AnyBytes AnyList (evaluate a) _ (evaluate-Tame src a all.0) λ s _.
        Tame-bind src AnyList AnyList (read_strings argv) _ (read_strings-Tame argv all.1)
          λ ss _. pure-Tame src AnyList (s ∷ ss) tt

  concat_fn-IsSafe : (n : ℕ) → IsSafe src concat_fn n
  unfolding concat_fn
  concat_fn-IsSafe n name argv e all =
      Tame-if src IsWellFormed (length argv == 0) _ _ (string-Tame []) (
        Tame-bind src AnyList IsWellFormed (read_strings argv) _ (read_strings-Tame argv all)
          λ ss _. string-Tame _)

  abort_fn-IsSafe : (n : ℕ) → IsSafe src abort_fn n
  unfolding abort_fn
  abort_fn-IsSafe n name [] e all s es =
      set_errmsg-Tame src IsWellFormed (codes "called abort()") s es
  abort_fn-IsSafe n name (a ∷ argv) e all s es =
      after (evaluate a s) (evaluate-Tame src a all.0 s es)
    where
      after :
          (r : Run Bytes)
          → Post AnyBytes s r
          → Post IsWellFormed s (elim r [
            | fault ↦ fault
            | null s' ↦ set_errmsg (codes "called abort()") s'
            | ok msg s' ↦ set_errmsg msg s'
          ])
      after fault h = h
      after (null s') h =
          Post-trans IsWellFormed h.0 (set_errmsg (codes "called abort()") s')
            (set_errmsg-Tame src IsWellFormed (codes "called abort()") s' (h.0.script ∙ es))
      after (ok msg s') h =
          Post-trans IsWellFormed h.0 (set_errmsg msg s')
            (set_errmsg-Tame src IsWellFormed msg s' (h.0.script ∙ es))

  if_else_fn-IsSafe : (n : ℕ) → IsSafe src if_else_fn n
  unfolding if_else_fn
  if_else_fn-IsSafe n name argv e all =
      Tame-cases src IsWellFormed (not (length argv == 2) && not (length argv == 3)) _ _
        (λ _. set_errmsg-Tame src IsWellFormed (codes "ifelse expects 2 or 3 arguments"))
        λ few. eval_arg-Tame IsWellFormed argv 0 _ (ground arith) all λ cond.
          Tame-if src IsWellFormed (boolean_string cond == 1) _ _
            (value_arg-Tame argv 1 (ground arith) all)
            (Tame-cases src IsWellFormed (length argv == 3) _ _
              (λ three. value_arg-Tame argv 2 (ground arith) all) λ _. string-Tame cond)

  copy_source-Tame : (a : Arg) → ArgOk src a → Tame src AnyBytes (copy_source a)
  unfolding copy_source
  copy_source-Tame a w s es =
      let room : a.end ≤ length s.script = rw es w.inside in
      rw (le→leb _ _ w.in_order, le→leb _ _ room) (Grows-refl s, tt)

  assert_loop-Tame : (argv : List Arg) → AllOk src argv → Tame src IsWellFormed (assert_loop argv)
  unfolding assert_loop
  assert_loop-Tame [] all = string-Tame []
  assert_loop-Tame (a ∷ argv) all =
      Tame-bind src AnyBytes IsWellFormed (evaluate a) _ (evaluate-Tame src a all.0) λ v _.
        Tame-if src IsWellFormed (boolean_string v == 0) _ _
          (Tame-bind src AnyBytes IsWellFormed (copy_source a) _ (copy_source-Tame a all.0)
            λ t _. set_errmsg-Tame src IsWellFormed (codes "assert failed: " ++ t))
          (assert_loop-Tame argv all.1)

  assert_fn-IsSafe : (n : ℕ) → IsSafe src assert_fn n
  unfolding assert_fn
  assert_fn-IsSafe n name argv e all = assert_loop-Tame argv all

  Counts : ℕ → List Bytes → Type 0
  Counts n strings = length strings ≡ n

  read_args-Tame :
      (n : ℕ) (argv : List Arg)
      → n ≤ length argv
      → AllOk src argv
      → Tame src (Counts n) (read_args n argv)
  unfolding read_args Counts
  read_args-Tame zero argv h all = pure-Tame src (Counts 0) [] refl
  read_args-Tame (suc n) [] h all = absurd (omega arith)
  read_args-Tame (suc n) (a ∷ argv) h all =
      Tame-bind src AnyBytes (Counts (suc n)) (evaluate a) _ (evaluate-Tame src a all.0) λ s _.
        Tame-bind src (Counts n) (Counts (suc n)) (read_args n argv) _
          (read_args-Tame n argv (omega arith) all.1)
          λ ss e. pure-Tame src (Counts (suc n)) (s ∷ ss) (ap suc e)

  less_than_int_args-Tame :
      (strings : List Bytes) → Counts 2 strings → Tame src IsWellFormed (less_than_int_args strings)
  unfolding less_than_int_args Counts
  less_than_int_args-Tame [] e = absurd (omega arith)
  less_than_int_args-Tame (l ∷ []) e = absurd (omega arith)
  less_than_int_args-Tame (l ∷ r ∷ []) e = string-Tame _
  less_than_int_args-Tame (l ∷ r ∷ x ∷ xs) e = absurd (omega arith)

  less_than_int_fn-IsSafe : (n : ℕ) → IsSafe src less_than_int_fn n
  unfolding less_than_int_fn
  less_than_int_fn-IsSafe n name argv e all =
      Tame-cases src IsWellFormed (not (length argv == 2)) _ _
        (λ _. set_errmsg-Tame src IsWellFormed (codes "less_than_int expects 2 arguments"))
        λ two.
          Tame-bind src (Counts 2) IsWellFormed (read_args 2 argv) _
            (read_args-Tame 2 argv (ground arith) all) less_than_int_args-Tame

  greater_than_int_fn-IsSafe : (n : ℕ) → IsSafe src greater_than_int_fn n
  unfolding greater_than_int_fn
  greater_than_int_fn-IsSafe n name argv e all =
      Tame-cases src IsWellFormed (not (length argv == 2)) _ _
        (λ _. set_errmsg-Tame src IsWellFormed (codes "greater_than_int expects 2 arguments"))
        λ two.
          Tame-bind src (ArgOk src) IsWellFormed (arg argv 1) _
            (arg-Tame src argv 1 (ground arith) all)
            λ right wr.
              Tame-bind src (ArgOk src) IsWellFormed (arg argv 0) _
                (arg-Tame src argv 0 (ground arith) all)
                λ left wl. less_than_int_fn-IsSafe 2 name (right ∷ left ∷ []) refl (wr, (wl, tt))

  -- The functions of the table and of the operators, with the numbers of arguments that they take.
  pub data Builtin : Function → ℕ → Type 0 where
    concat : (n : ℕ) → Builtin concat_fn n
    if_else : (n : ℕ) → Builtin if_else_fn n
    abort : (n : ℕ) → Builtin abort_fn n
    assert : (n : ℕ) → Builtin assert_fn n
    sleeps : (n : ℕ) → n ≡ 1 → Builtin sleep_fn n
    prints : (n : ℕ) → Builtin stdout_fn n
    logical_and : (n : ℕ) → n ≡ 2 → Builtin logical_and_fn n
    logical_or : (n : ℕ) → n ≡ 2 → Builtin logical_or_fn n
    logical_not : (n : ℕ) → n ≡ 1 → Builtin logical_not_fn n
    substring : (n : ℕ) → n ≡ 2 → Builtin substring_fn n
    equality : (n : ℕ) → n ≡ 2 → Builtin equality_fn n
    inequality : (n : ℕ) → n ≡ 2 → Builtin inequality_fn n
    sequence : (n : ℕ) → n ≡ 2 → Builtin sequence_fn n
    less_than_int : (n : ℕ) → Builtin less_than_int_fn n
    greater_than_int : (n : ℕ) → Builtin greater_than_int_fn n
    lit : (n : ℕ) → Builtin literal n

  -- Every one of them, called with arguments that are tame themselves, does not fault, returns NULL
  -- only with an error message, keeps the script, only adds to the output, and returns a string
  -- whose size is its length.
  pub Builtin-IsSafe : {fn : Function} {n : ℕ} → Builtin fn n → IsSafe src fn n
  Builtin-IsSafe (concat n) = concat_fn-IsSafe n
  Builtin-IsSafe (if_else n) = if_else_fn-IsSafe n
  Builtin-IsSafe (abort n) = abort_fn-IsSafe n
  Builtin-IsSafe (assert n) = assert_fn-IsSafe n
  Builtin-IsSafe (sleeps n e) = rw e sleep_fn-IsSafe
  Builtin-IsSafe (prints n) = stdout_fn-IsSafe n
  Builtin-IsSafe (logical_and n e) = rw e logical_and_fn-IsSafe
  Builtin-IsSafe (logical_or n e) = rw e logical_or_fn-IsSafe
  Builtin-IsSafe (logical_not n e) = rw e logical_not_fn-IsSafe
  Builtin-IsSafe (substring n e) = rw e substring_fn-IsSafe
  Builtin-IsSafe (equality n e) = rw e equality_fn-IsSafe
  Builtin-IsSafe (inequality n e) = rw e inequality_fn-IsSafe
  Builtin-IsSafe (sequence n e) = rw e sequence_fn-IsSafe
  Builtin-IsSafe (less_than_int n) = less_than_int_fn-IsSafe n
  Builtin-IsSafe (greater_than_int n) = greater_than_int_fn-IsSafe n
  Builtin-IsSafe (lit n) = literal-IsSafe n
