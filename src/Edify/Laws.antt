-- ===== src/Edify/Laws.antt =====
-- edify/expr.c: how the functions of scripts stand to one another.
use screenbox_rockchip_recov.Prelude.{
  ◌≡◌, refl, sym, Bool, true, List, [], ◌∷◌, ◌++◌, append-nil, append_assoc, arith, ◌↔◌,
}
use mathlib.Core.Path.{fun_ext}
use screenbox_rockchip_recov.Prelude.Bytes.{
  Bytes, is_substring, Occurs, is_substring_sound, is_substring_complete,
}
use screenbox_rockchip_recov.Edify.Run.{
  State, ok, M, ◌>>=◌, pure, Arg, Function, set_errmsg, evaluate, string_value, boolean_string,
}
use screenbox_rockchip_recov.Edify.Functions.{
  truth, read_strings, copy_strings, concat_fn, if_else_fn, assert_loop, assert_fn, logical_and_fn,
  logical_not_fn, substring_fn, equality_fn, inequality_fn, sequence_fn,
}

-- The argument that calls `fn`.
abbrev pub call : Function → Bytes → List Arg → Arg
call fn name argv = record { run = fn name argv; start = 0; end = 0 }

-- `ifelse(a, b)` is `a && b`, in every state.
pub if_else_fn-logical_and_fn :
    (name name' : Bytes) (a b : Arg) (s : State)
    → if_else_fn name (a ∷ b ∷ []) s ≡ logical_and_fn name' (a ∷ b ∷ []) s
unfolding if_else_fn logical_and_fn
if_else_fn-logical_and_fn name name' a b s = ground arith

-- `a != b` is `!(a == b)`, in every state.
pub inequality_fn-logical_not_fn :
    (name : Bytes) (a b : Arg) (s : State)
    → inequality_fn name (a ∷ b ∷ []) s
      ≡ logical_not_fn name (call equality_fn name (a ∷ b ∷ []) ∷ []) s
unfolding inequality_fn logical_not_fn equality_fn evaluate string_value boolean_string
inequality_fn-logical_not_fn name a b s = ground arith

copy_strings-append : (r : Bytes) (xs : List Bytes) → copy_strings r xs ≡ r ++ copy_strings [] xs
unfolding copy_strings
copy_strings-append r [] = rw append-nil
copy_strings-append r (x ∷ xs) =
    rw (copy_strings-append (r ++ x) xs, copy_strings-append x xs)
      (append_assoc r x (copy_strings [] xs))

Run-assoc {ℓ} :
    {A B C : Type ℓ} (m : M A) (f : A → M B) (g : B → M C) (s : State)
    → ((m >>= f) >>= g) s ≡ (m >>= λ a. f a >>= g) s
Run-assoc m f g s = ground arith

bind_assoc {ℓ} :
    {A B C : Type ℓ} (m : M A) (f : A → M B) (g : B → M C)
    → (m >>= f) >>= g ≡ m >>= (λ a. f a >>= g)
bind_assoc m f g = fun_ext (λ s. Run-assoc m f g s)

pure_bind {ℓ} : {A B : Type ℓ} (a : A) (f : A → M B) → pure a >>= f ≡ f a
pure_bind a f = refl

bind_pure {ℓ} : {A : Type ℓ} (m : M A) → m >>= (λ a. pure a) ≡ m
bind_pure m = fun_ext λ s. ground arith

read_strings-append :
    (xs ys : List Arg)
    → read_strings (xs ++ ys) ≡ read_strings xs >>= (λ a. read_strings ys >>= λ b. pure (a ++ b))
unfolding read_strings
read_strings-append [] ys = sym (bind_pure (read_strings ys))
read_strings-append (x ∷ xs) ys = simp (bind_assoc, read_strings-append xs ys) refl

-- `ConcatFn` tests for no argument first; that makes no difference.
concat_fn_lem :
    (name : Bytes) (xs : List Arg)
    → concat_fn name xs ≡ read_strings xs >>= (λ ss. pure (string_value (copy_strings [] ss)))
unfolding concat_fn
concat_fn_lem name [] = unfold read_strings copy_strings in refl
concat_fn_lem name (x ∷ xs) = fun_ext λ s. ground arith

evaluate_string {ℓ} :
    {A : Type ℓ} (m : M A) (f : A → Bytes)
    → evaluate (record { run = m >>= (λ a. pure (string_value (f a))); start = 0; end = 0 })
      ≡ m >>= (λ a. pure (f a))
unfolding evaluate string_value
evaluate_string m f = fun_ext λ s. ground arith

evaluate-concat_fn :
    (name : Bytes) (xs : List Arg)
    → evaluate (call concat_fn name xs) ≡ read_strings xs >>= (λ ss. pure (copy_strings [] ss))
evaluate-concat_fn name xs = rw concat_fn_lem (evaluate_string (read_strings xs) (copy_strings []))

copy_strings-join :
    (xs ys : List Bytes)
    → copy_strings [] (copy_strings [] xs ∷ copy_strings [] ys ∷ []) ≡ copy_strings [] (xs ++ ys)
unfolding copy_strings
copy_strings-join [] ys = refl
copy_strings-join (x ∷ xs) ys = rw (
  copy_strings-append x xs,
  copy_strings-append x (xs ++ ys),
  ← copy_strings-join xs ys,
  append_assoc x (copy_strings [] xs) (copy_strings [] ys),
)

-- `concat` of two calls of `concat` is one `concat`: the operator `+`, which the parser nests, joins
-- any number of strings, with the same effects in the same order and the same NULL results.
pub concat_fn-append :
    (name : Bytes) (xs ys : List Arg) (s : State)
    → concat_fn name (call concat_fn name xs ∷ call concat_fn name ys ∷ []) s
      ≡ concat_fn name (xs ++ ys) s
unfolding read_strings
concat_fn-append name xs ys s =
    rw
      (
        concat_fn_lem name (xs ++ ys),
        concat_fn_lem name (call concat_fn name xs ∷ call concat_fn name ys ∷ []),
      )
      (simp (
        evaluate-concat_fn name,
        Run-assoc,
        bind_assoc,
        pure_bind,
        read_strings-append xs ys,
        copy_strings-join,
      ))

sequence_fn_lem :
    (name : Bytes) (a b : Arg) → sequence_fn name (a ∷ b ∷ []) ≡ a.run >>= (λ _. b.run)
unfolding sequence_fn
sequence_fn_lem name a b = refl

-- An `assert` of several conditions is a sequence of asserts.
pub assert_fn-sequence_fn :
    (name : Bytes) (a : Arg) (argv : List Arg) (s : State)
    → assert_fn name (a ∷ argv) s
      ≡ sequence_fn name (call assert_fn name (a ∷ []) ∷ call assert_fn name argv ∷ []) s
unfolding assert_fn assert_loop set_errmsg
assert_fn-sequence_fn name a argv s = rw sequence_fn_lem (ground arith)

-- Where `a` and then `b` evaluate to strings, `is_substring(a, b)` evaluates both in that order, and is "t" exactly if the first string occurs in
-- the second, else empty.
pub substring_fn-Occurs :
    (name : Bytes) (a b : Arg) (needle haystack : Bytes) (s s₁ s₂ : State)
    → evaluate a s ≡ ok needle s₁
    → evaluate b s₁ ≡ ok haystack s₂
    → (t : Bool) × (substring_fn name (a ∷ b ∷ []) s ≡ ok (string_value (truth t)) s₂)
      × ((t ≡ true) ↔ Occurs needle haystack)
unfolding substring_fn
substring_fn-Occurs name a b needle haystack s s₁ s₂ ea eb = (
  is_substring needle haystack,
  ground arith,
  (is_substring_sound needle haystack, λ (x, y, e). rw e (is_substring_complete needle x y)),
)
