-- ===== src/Patch/Outcomes.antt =====
-- applypatch/bspatch.c: rules for what holds of the result of a run, if there is one.
use mathlib.Core.Path.{subst}
use screenbox_rockchip_recov.Prelude.{
  ℕ, ◌≡◌, refl, Bool, true, false, Option, none, some, if◌then◌else◌, length,
}
use screenbox_rockchip_recov.Prelude.Bytes.{Bytes}
use screenbox_rockchip_recov.Patch.{Bzip2, returns, overruns, fails, runs_on, Outcome, ◌>>=◌}

-- `P` holds of the result, if there is one.
abbrev pub Gives : {A : Type 0} → (A → Type 0) → Outcome A → Type 0
Gives P (returns a) = P a
Gives P _ = Unit

pub Gives-bind :
    {A B : Type 0} (P : A → Type 0) (Q : B → Type 0) (m : Outcome A) (k : A → Outcome B)
    → Gives P m
    → ((a : A) → P a → Gives Q (k a))
    → Gives Q (m >>= k)
Gives-bind P Q (returns a) k h f = f a h
Gives-bind P Q fails k h f = tt
Gives-bind P Q overruns k h f = tt
Gives-bind P Q runs_on k h f = tt

-- A result that is given is one that the run returned.
pub Gives-self :
    {A : Type 0} (P : A → Type 0) (o : Outcome A) → Gives P o → Gives (λ a. (o ≡ returns a) × P a) o
Gives-self P (returns a) h = (refl, h)
Gives-self P fails h = tt
Gives-self P overruns h = tt
Gives-self P runs_on h = tt

pub Gives-if :
    {A : Type 0} (P : A → Type 0) (b : Bool) (m n : Outcome A)
    → (b ≡ true → Gives P m)
    → (b ≡ false → Gives P n)
    → Gives P (if b then m else n)
Gives-if P true m n f g = f refl
Gives-if P false m n f g = g refl

pub by_outcome :
    {A B : Type 0} (P : B → Type 0) (o : Outcome A) (k : A → Outcome B) (f : Outcome B)
    → ((a : A) → Gives P (k a))
    → Gives P f
    → Gives P (elim o as (λ _. Outcome B) [
      | returns a ↦ k a
      | fails ↦ f
      | overruns ↦ overruns
      | runs_on ↦ runs_on
    ])
by_outcome P (returns a) k f h g = h a
by_outcome P fails k f h g = g
by_outcome P overruns k f h g = tt
by_outcome P runs_on k f h g = tt

pub by_option :
    {A B : Type 0} (P : B → Type 0) (o : Option A) (k : A → Outcome B) (f : Outcome B)
    → ((a : A) → Gives P (k a))
    → Gives P f
    → Gives P (elim o as (λ _. Outcome B) [ none ↦ f | some a ↦ k a ])
by_option P none k f h g = g
by_option P (some a) k f h g = h a

pub anything : {A : Type 0} (m : Outcome A) → Gives (λ _. Unit {0}) m
anything (returns a) = tt
anything fails = tt
anything overruns = tt
anything runs_on = tt

pub given : {A : Type 0} (P : A → Type 0) (m : Outcome A) (a : A) → Gives P m → m ≡ returns a → P a
given P m a h e = subst (λ o. Gives P o) e h

module _ {S : Type 0} (bz : Bzip2 S) where
  -- Memory of the wanted size, if any.
  abbrev pub Allocates : (ℕ → Option Bytes) → Type 0
  Allocates malloc = (n : ℕ) (buf : Bytes) → malloc n ≡ some buf → length buf ≡ n
