-- ===== src/Edify/Run.antt =====
-- edify/expr.h: the evaluator's state, values and function pointers, and the two ways in which a
-- function evaluates an argument (`EvaluateValue`, `Evaluate`).
use screenbox_rockchip_recov.Prelude.{
  ℕ, zero, suc, List, [], ◌∷◌, ◌++◌, Option, some, ◌==◌, if◌then◌else◌, length, take,
}
use screenbox_rockchip_recov.Prelude.Bytes.{Bytes, codes, decimal}

-- `State`. The script and the error message are its fields; what the functions of expr.c write to
-- stdout and the seconds that they sleep are recorded beside them.
pub record State : Type 0 where
  pub script : Bytes
  pub errmsg : Option Bytes
  pub stdout : Bytes
  pub slept : List ℕ

-- How a call ends: by a fault (an access outside of an array), by returning NULL, or with a value.
pub data Run {ℓ} (A : Type ℓ) : Type ℓ where
  fault : Run A
  null : State → Run A
  ok : A → State → Run A

abbrev pub M {ℓ} : Type ℓ → Type ℓ
M A = State → Run A

-- `if (x == NULL) return NULL;` after a call.
infixl 5 ◌>>=◌ ◌>>◌
abbrev pub ◌>>=◌ {ℓ κ} : {A : Type ℓ} {B : Type κ} → M A → (A → M B) → M B
◌>>=◌ m k s = elim (m s) [ fault ↦ fault | null s' ↦ null s' | ok a s' ↦ k a s' ]

abbrev pub ◌>>◌ {ℓ κ} : {A : Type ℓ} {B : Type κ} → M A → M B → M B
m >> k = m >>= λ _. k

abbrev pub pure {ℓ} : {A : Type ℓ} → A → M A
pure a s = ok a s

-- `Value`: a type tag, a size and the bytes at `data`.
pub record Value : Type 0 where
  pub type : ℕ
  pub size : ℕ
  pub bytes : Bytes

abbrev pub val_string : ℕ
val_string = 1

abbrev pub val_blob : ℕ
val_blob = 2

-- An element of `argv`: what evaluating it does, and its place in the script.
pub record Arg : Type 0 where
  pub run : M Value
  pub start : ℕ
  pub end : ℕ

-- `Function`, without `argc`: it is the length of the list.
abbrev pub Function : Type 0
Function = Bytes → List Arg → M Value

-- `Expr`. A node holds a list of nodes, so that list is a type of its own.
mutual
  pub data Expr : Type 0 where
    node : Function → Bytes → Args → ℕ → ℕ → Expr

  pub data Args : Type 0 where
    nil : Args
    cons : Expr → Args → Args

-- `expr->fn(expr->name, state, expr->argc, expr->argv)`
unfoldable mutual
  pub eval : Expr → M Value
  eval (node fn name args start end) = fn name (argv_of args)

  pub argv_of : Args → List Arg
  argv_of nil = []
  argv_of (cons (node fn name args start end) es) =
      record { run = fn name (argv_of args); start = start; end = end } ∷ argv_of es

-- `argv[i]`
unfoldable pub arg : List Arg → ℕ → M Arg
arg [] i s = fault
arg (a ∷ argv) zero s = ok a s
arg (a ∷ argv) (suc i) s = arg argv i s

-- `ErrorAbort`: `vsnprintf` keeps at most 4095 bytes of the formatted message.
unfoldable pub error_abort {ℓ} : {A : Type ℓ} → Bytes → M A
error_abort msg s = null (record s { errmsg = some (take 4095 msg) })

-- `free(state->errmsg); state->errmsg = strdup(msg); return NULL;`
unfoldable pub set_errmsg {ℓ} : {A : Type ℓ} → Bytes → M A
set_errmsg msg s = null (record s { errmsg = some msg })

-- `EvaluateValue`
abbrev pub evaluate_value : Arg → M Value
evaluate_value a = a.run

abbrev pub expecting_string : ℕ → Bytes
expecting_string type = codes "expecting string, got value type " ++ decimal type

-- `Evaluate`
unfoldable pub evaluate : Arg → M Bytes
evaluate a = do
  v ← a.run
  if v.type == val_string then pure v.bytes else error_abort (expecting_string v.type)

-- `StringValue`, of a string that is not NULL.
unfoldable pub string_value : Bytes → Value
string_value str = record { type = val_string; size = length str; bytes = str }

-- `BooleanString`
unfoldable pub boolean_string : Bytes → ℕ
boolean_string [] = 0
boolean_string (c ∷ s) = 1
