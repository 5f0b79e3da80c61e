-- ===== src/Edify/Safety/Scripts.antt =====
-- edify/expr.c: whole scripts.
use screenbox_rockchip_recov.Prelude.{ℕ, suc, ◌≤◌, ◌≡◌, refl, ap, length, ◌⊎◌, inl, inr}
use screenbox_rockchip_recov.Prelude.Bytes.{Bytes}
use screenbox_rockchip_recov.Edify.Run.{Function, Expr, node, Args, nil, cons, eval, argv_of}
use screenbox_rockchip_recov.Edify.Safety.{IsWellFormed, Tame, AllOk, IsSafe}
use screenbox_rockchip_recov.Edify.Safety.Builtins.{Builtin, Builtin-IsSafe}

abbrev pub count : Args → ℕ
count nil = 0
count (cons e es) = suc (count es)

length-argv_of : (es : Args) → length (argv_of es) ≡ count es
unfolding eval
length-argv_of nil = refl
length-argv_of (cons (node fn name args start end) es) = ap suc (length-argv_of es)

-- A tree over `src` whose calls have arguments enough: each node calls a function that is safe with
-- that many arguments, of expr.c or registered by the program, and lies in the script. The parser
-- checks no counts of arguments, so it also builds trees that are not such.
abbrev mutual
  pub IsScript : Bytes → Expr → Type 0
  IsScript src (node fn name args start end) =
      (Builtin src fn (count args) ⊎ IsSafe src fn (count args))
      × AreScripts src args
      × (start ≤ end)
      × (end ≤ length src)

  pub AreScripts : Bytes → Args → Type 0
  AreScripts src nil = Unit
  AreScripts src (cons e es) = IsScript src e × AreScripts src es

module _ (src : Bytes) where
  safe : {fn : Function} {n : ℕ} → Builtin src fn n ⊎ IsSafe src fn n → IsSafe src fn n
  safe (inl b) = Builtin-IsSafe src b
  safe (inr h) = h

  argv_of-AllOk : (es : Args) → AreScripts src es → AllOk src (argv_of es)
  unfolding eval
  argv_of-AllOk nil h = tt
  argv_of-AllOk (cons (node fn name args start end) es) ((f, hs, order, inside), rest) = (
    record {
      runs = safe f name (argv_of args) (length-argv_of args) (argv_of-AllOk args hs);
      in_order = order;
      inside = inside;
    },
    argv_of-AllOk es rest,
  )

-- Where each call of a tree has a number of arguments with which its function is safe, which the
-- parser does not check, and the node of each lies in the script: evaluating the tree, from a state
-- with that script, does not fault; it returns NULL only with an error message set; it keeps the
-- script and only adds to the output and the sleeps, error or not; and a string that it returns has
-- the size of its bytes.
pub eval-Tame : (src : Bytes) (e : Expr) → IsScript src e → Tame src IsWellFormed (eval e)
unfolding eval
eval-Tame src (node fn name args start end) (f, hs, order, inside) =
    safe src f name (argv_of args) (length-argv_of args) (argv_of-AllOk src args hs)
