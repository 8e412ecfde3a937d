-- ===== src/Prelude/Totality.antt =====
-- Total correctness of a chain of calls: it returns, and what it returns has a property.
use mathlib.Core.Path.{◌≡◌, refl, ◌∙◌, ap, subst}
use mathlib.Core.Bool.{Bool, true, false}
use stateline.Prelude.Tests.{if◌then◌else◌}
use stateline.Prelude.Results.{Result, ok, Fault, guard, ◌>>=◌, ◌>>◌}

pub record Returns {ℓ κ} {A : Type ℓ} (P : A → Type κ) (m : Result A) : Type (ℓ ⊔ κ) where
  pub value : A
  pub run : m ≡ ok value
  pub holds : P value

module _ {ℓ κ} {A : Type ℓ} {P : A → Type κ} where
  pub Returns-ok : (a : A) → P a → Returns P (ok a)
  Returns-ok a p = record { value = a; run = refl; holds = p }

  pub Returns-if :
      (b : Bool) (m n : Result A)
      → (b ≡ true → Returns P m)
      → (b ≡ false → Returns P n)
      → Returns P (if b then m else n)
  Returns-if true m n hm hn = hm refl
  Returns-if false m n hm hn = hn refl

  -- What a returning call returned has the property.
  pub Returns-value : (m : Result A) (a : A) → Returns P m → m ≡ ok a → P a
  Returns-value m a h e = let same : h.value ≡ a = cc in subst P same h.holds

module _ {ℓ κ} {A : Type ℓ} where
  -- Two tests that agree choose the result and what holds of it.
  pub Returns-choice {μ} :
      {I : Type μ} (Q : I → A → Type κ) (b c : Bool) {x y : I} (m n : Result A)
      → c ≡ b
      → (b ≡ true → Returns (Q x) m)
      → (b ≡ false → Returns (Q y) n)
      → Returns (Q (if b then x else y)) (if c then m else n)
  Returns-choice Q true true m n e hm hn = hm refl
  Returns-choice Q true false m n e hm hn = cc
  Returns-choice Q false true m n e hm hn = cc
  Returns-choice Q false false m n e hm hn = hn refl

module _ {ℓ κ} {A : Type ℓ} {B : Type κ} where
  pub Returns-bind {μ ν} :
      {P : A → Type μ} {Q : B → Type ν} (m : Result A) (f : A → Result B)
      → Returns P m
      → ((a : A) → P a → Returns Q (f a))
      → Returns Q (m >>= f)
  Returns-bind m f first second =
      let last = second first.value first.holds in
      record {
        value = last.value;
        run = ap (λ r. r >>= f) first.run ∙ last.run;
        holds = last.holds;
      }

module _ {ℓ κ} {A : Type ℓ} {P : A → Type κ} where
  pub Returns-guard :
      (b : Bool) (fault : Fault) (m : Result A)
      → b ≡ true
      → Returns P m
      → Returns P (guard b fault >> m)
  Returns-guard true fault m e h = h
  Returns-guard false fault m e h = cc
