-- ===== src/Edify/Safety.antt =====
-- edify/expr.c: what holds of every call, NULL results included.
pub mod Builtins
pub mod Scripts
use screenbox_rockchip_recov.Prelude.{
  ℕ, zero, suc, ◌+◌, ◌≤◌, ◌<◌, ◌≡◌, refl, ap, ◌∙◌, Bool, true, false, List, [], ◌∷◌, ◌++◌,
  append-nil, append_assoc, none, some, arith, length, take, ◌==◌, if◌then◌else◌, Option,
}
use screenbox_rockchip_recov.Prelude.Bytes.{Bytes}
use screenbox_rockchip_recov.Edify.Run.{
  State, Run, fault, null, ok, M, ◌>>=◌, Value, val_string, Arg, Function, arg, error_abort,
  set_errmsg, expecting_string, evaluate,
}

-- The script stays as it is, and output and sleeps are only added to.
pub record Grows (s s' : State) : Type 0 where
  pub script : s'.script ≡ s.script
  pub printed : (o : Bytes) × (s'.stdout ≡ s.stdout ++ o)
  pub slept : (o : List ℕ) × (s'.slept ≡ s.slept ++ o)

pub Grows-refl : (s : State) → Grows s s
Grows-refl s = record { script = refl; printed = ([], rw append-nil); slept = ([], rw append-nil) }

pub Grows-trans : {s t u : State} → Grows s t → Grows t u → Grows s u
Grows-trans {s} g h = record {
  script = h.script ∙ g.script;
  printed = (
    g.printed.0 ++ h.printed.0,
    rw (h.printed.1, g.printed.1) (append_assoc s.stdout g.printed.0 h.printed.0),
  );
  slept = (
    g.slept.0 ++ h.slept.0,
    rw (h.slept.1, g.slept.1) (append_assoc s.slept g.slept.0 h.slept.0),
  );
}

-- How a call that starts in `s` may end: never by a fault, by NULL only with an error message, and
-- with a value only where `P` holds of it.
abbrev pub Post {ℓ} : {A : Type ℓ} → (A → Type 0) → State → Run A → Type 0
Post P s fault = ⊥
Post P s (null s') = Grows s s' × ((e : Bytes) × (s'.errmsg ≡ some e))
Post P s (ok a s') = Grows s s' × P a

module _ {ℓ} {A : Type ℓ} (P : A → Type 0) where
  pub Post-trans : {s s' : State} → Grows s s' → (r : Run A) → Post P s' r → Post P s r
  Post-trans g fault h = h
  Post-trans g (null t) h = (Grows-trans g h.0, h.1)
  Post-trans g (ok a t) h = (Grows-trans g h.0, h.1)

-- The size of a string value is the length of its bytes.
abbrev pub IsWellFormed : Value → Type 0
IsWellFormed v = v.type ≡ val_string → v.size ≡ length v.bytes

-- What holds of a call made with the script `src`.
module _ (src : Bytes) where
  abbrev pub Tame {ℓ} : {A : Type ℓ} → (A → Type 0) → M A → Type 0
  Tame P m = (s : State) → s.script ≡ src → Post P s (m s)

  pub Tame-bind {ℓ κ} :
      {A : Type ℓ} {B : Type κ} (P : A → Type 0) (Q : B → Type 0) (m : M A) (k : A → M B)
      → Tame P m
      → ((a : A) → P a → Tame Q (k a))
      → Tame Q (m >>= k)
  Tame-bind {A = A} {B = B} P Q m k hm hk s e = after (m s) (hm s e)
    where
      after :
          (r : Run A)
          → Post P s r
          → Post Q s (elim r [ fault ↦ fault | null s' ↦ null s' | ok a s' ↦ k a s' ])
      after fault h = h
      after (null s') h = h
      after (ok a s') h = Post-trans Q h.0 (k a s') (hk a h.1 s' (h.0.script ∙ e))

  pub Tame-if {ℓ} :
      {A : Type ℓ} (P : A → Type 0) (b : Bool) (m n : M A)
      → Tame P m
      → Tame P n
      → Tame P (if b then m else n)
  Tame-if P true m n hm hn = hm
  Tame-if P false m n hm hn = hn

  -- The same, where each branch may use what the test says.
  pub Tame-cases {ℓ} :
      {A : Type ℓ} (P : A → Type 0) (b : Bool) (m n : M A)
      → (b ≡ true → Tame P m)
      → (b ≡ false → Tame P n)
      → Tame P (if b then m else n)
  Tame-cases P true m n hm hn = hm refl
  Tame-cases P false m n hm hn = hn refl

  pub pure-Tame {ℓ} : {A : Type ℓ} (P : A → Type 0) (a : A) → P a → Tame P (λ s. ok a s)
  pure-Tame P a h s e = (Grows-refl s, h)

  pub set_errmsg-Tame {ℓ} : {A : Type ℓ} (P : A → Type 0) (msg : Bytes) → Tame P (set_errmsg msg)
  unfolding set_errmsg
  set_errmsg-Tame P msg s e = (
    record { script = refl; printed = ([], rw append-nil); slept = ([], rw append-nil) },
    (msg, refl),
  )

  pub error_abort-Tame {ℓ} : {A : Type ℓ} (P : A → Type 0) (msg : Bytes) → Tame P (error_abort msg)
  unfolding error_abort
  error_abort-Tame P msg s e = (
    record { script = refl; printed = ([], rw append-nil); slept = ([], rw append-nil) },
    (take 4095 msg, refl),
  )

  -- An argument that evaluates so, and whose place lies in the script.
  pub record ArgOk (a : Arg) : Type 0 where
    pub runs : Tame IsWellFormed a.run
    pub in_order : a.start ≤ a.end
    pub inside : a.end ≤ length src

  abbrev pub AllOk : List Arg → Type 0
  AllOk [] = Unit
  AllOk (a ∷ argv) = ArgOk a × AllOk argv

  -- A function that may be called with `n` arguments.
  abbrev pub IsSafe : Function → ℕ → Type 0
  IsSafe fn n =
      (name : Bytes) (argv : List Arg)
      → length argv ≡ n
      → AllOk argv
      → Tame IsWellFormed (fn name argv)

  pub arg-Tame : (argv : List Arg) (i : ℕ) → i < length argv → AllOk argv → Tame ArgOk (arg argv i)
  unfolding arg
  arg-Tame [] i h all s e = absurd (omega arith)
  arg-Tame (a ∷ argv) zero h all s e = (Grows-refl s, all.0)
  arg-Tame (a ∷ argv) (suc i) h all s e = arg-Tame argv i (omega arith) all.1 s e

  pub evaluate-Tame : (a : Arg) → ArgOk a → Tame (λ _. Unit) (evaluate a)
  unfolding evaluate
  evaluate-Tame a h =
      Tame-bind IsWellFormed (λ _. Unit) a.run _ h.runs
        λ v w.
          Tame-if (λ _. Unit) (v.type == val_string) _ _ (pure-Tame (λ _. Unit) v.bytes tt)
            (error_abort-Tame {A = Bytes} (λ _. Unit) (expecting_string v.type))
