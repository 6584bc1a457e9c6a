-- ===== src/Base/Exec.antt =====
-- Code that talks to an outside state and may raise. What was done before a raise stays done, so
-- the state comes back beside the error too.
use Prim.Native.String.{String}
use mathlib.Core.Path.{◌≡◌, refl}
use mathlib.Core.Bool.{Bool, true, false}
use ansible_collection_found.Base.Tests.{if◌then◌else◌}
use ansible_collection_found.Base.Result.{Result, ok, err, refuse}

abbrev pub Exec {ℓ κ} : Type ℓ → Type κ → Type (ℓ ⊔ κ)
Exec S A = S → Result A × S

module _ {ℓ κ} {S : Type ℓ} {A : Type κ} where
  unfoldable pub pure : A → Exec S A
  pure a s = (ok a, s)

  unfoldable pub raise : String → Exec S A
  raise e s = (err e, s)

  unfoldable pub lift : Result A → Exec S A
  lift r s = (r, s)

-- `if b: raise ...`
abbrev pub check {ℓ} : {S : Type ℓ} → Bool → String → Exec S (Unit {0})
check b e = lift (refuse b e)

module _ {ℓ κ μ} {S : Type ℓ} {A : Type κ} {B : Type μ} where
  abbrev pub continue : Result A → (A → Exec S B) → Exec S B
  continue (ok a) f s = f a s
  continue (err e) f s = (err e, s)

  infixl 10 ◌>>=◌ ◌>>◌
  -- opening this opens `pure`, `raise` and `lift` too
  unfoldable pub ◌>>=◌ : Exec S A → (A → Exec S B) → Exec S B
  unfolding pure raise lift
  ◌>>=◌ m f s = continue (m s).0 f (m s).1

  abbrev pub ◌>>◌ : Exec S A → Exec S B → Exec S B
  m >> k = m >>= λ _. k

  -- What a block that did not raise has computed first, and how it went on.
  pub bind-ok :
      (m : Exec S A) (f : A → Exec S B) (s : S) {b : B}
      → ((m >>= f) s).0 ≡ ok b
      → (a : A) × ((m s).0 ≡ ok a) × ((m >>= f) s ≡ f a (m s).1) × ((f a (m s).1).0 ≡ ok b)
  unfolding ◌>>=◌
  bind-ok m f s = go (m s).0
    where
      go :
          (r : Result A) {b : B}
          → (continue r f (m s).1).0 ≡ ok b
          → (a : A) × (r ≡ ok a) × (continue r f (m s).1 ≡ f a (m s).1) × ((f a (m s).1).0 ≡ ok b)
      go (ok a) h = (a, refl, refl, h)
      go (err e) h = cc

  -- The same, for a proof that goes on from there.
  pub bind-elim {π} :
      {P : Type π} (m : Exec S A) (f : A → Exec S B) (s : S) {b : B}
      → ((m >>= f) s).0 ≡ ok b
      → ((a : A) → (m s).0 ≡ ok a → (f a (m s).1).0 ≡ ok b → P)
      → P
  bind-elim m f s h k = let (a, is_a, _, rest) = bind-ok m f s h in k a is_a rest

  -- The same, with the run of the whole block.
  pub bind-run {π} :
      {P : Type π} (m : Exec S A) (f : A → Exec S B) (s : S) {b : B}
      → ((m >>= f) s).0 ≡ ok b
      → ((a : A) → (m s).0 ≡ ok a → (m >>= f) s ≡ f a (m s).1 → (f a (m s).1).0 ≡ ok b → P)
      → P
  bind-run m f s h k = let (a, is_a, e, rest) = bind-ok m f s h in k a is_a e rest

  -- What the state after a block satisfies: the first part raises, or the second part goes on.
  pub bind-cases {π} :
      (m : Exec S A) (f : A → Exec S B) (s : S) (P : S → Type π)
      → ((e : String) → (m s).0 ≡ err e → P (m s).1)
      → ((a : A) → (m s).0 ≡ ok a → P (f a (m s).1).1)
      → P ((m >>= f) s).1
  unfolding ◌>>=◌
  bind-cases m f s P = go (m s).0
    where
      go :
          (r : Result A)
          → ((e : String) → r ≡ err e → P (m s).1)
          → ((a : A) → r ≡ ok a → P (f a (m s).1).1)
          → P (continue r f (m s).1).1
      go (ok a) hf hs = hs a refl
      go (err e) hf hs = hf e refl

  pub lift-cases {π} :
      (r : Result A) (f : A → Exec S B) (s : S) (P : S → Type π)
      → P s
      → ((a : A) → r ≡ ok a → P (f a s).1)
      → P ((lift r >>= f) s).1
  unfolding ◌>>=◌
  lift-cases (ok a) f s P hf hs = hs a refl
  lift-cases (err e) f s P hf hs = hf

  pub bind-of_ok :
      (m : Exec S A) (f : A → Exec S B) (s : S) (a : A) (t : S)
      → m s ≡ (ok a, t)
      → (m >>= f) s ≡ f a t
  unfolding ◌>>=◌
  bind-of_ok m f s a t e = rw e

module _ {ℓ κ μ} {S : Type ℓ} {A : Type κ} {B : Type μ} where
  pub lift-of_ok :
      (r : Result A) (f : A → Exec S B) (s : S) (a : A) → r ≡ ok a → (lift r >>= f) s ≡ f a s
  unfolding ◌>>=◌
  lift-of_ok r f s a e = rw e

-- A relation between the state before and after a block, whether the block raises or not.
pub record Relates {ℓ κ μ} {S : Type ℓ} (R : S → S → Type κ) {A : Type μ} (m : Exec S A)
    : Type (ℓ ⊔ κ) where
  pub at : (s : S) → R s (m s).1

-- What composes: a relation that holds of no step, and of two steps in a row.
pub record IsPreorder {ℓ κ} {S : Type ℓ} (R : S → S → Type κ) : Type (ℓ ⊔ κ) where
  pub stay : (s : S) → R s s
  pub chain : (s t u : S) → R s t → R t u → R s u

module _ {ℓ κ μ} {S : Type ℓ} {R : S → S → Type κ} (o : IsPreorder R) {A : Type μ} where
  pub Relates-pure : (a : A) → Relates R (pure a)
  unfolding pure
  Relates-pure a = record { at = o.stay }

  pub Relates-lift : (r : Result A) → Relates R (lift r)
  unfolding lift
  Relates-lift r = record { at = o.stay }

  pub Relates-raise : (e : String) → Relates R (raise {A = A} e)
  unfolding raise
  Relates-raise e = record { at = o.stay }

module _ {ℓ κ μ ν} {S : Type ℓ} {R : S → S → Type κ} (o : IsPreorder R) {A : Type μ}
    {B : Type ν} where
  Relates-continue :
      (r : Result A) (f : A → Exec S B) → ((a : A) → Relates R (f a)) → Relates R (continue r f)
  Relates-continue (ok a) f h = h a
  Relates-continue (err e) f h = record { at = o.stay }

  pub Relates-bind :
      (m : Exec S A) (f : A → Exec S B)
      → Relates R m
      → ((a : A) → Relates R (f a))
      → Relates R (m >>= f)
  unfolding ◌>>=◌
  Relates-bind m f hm hf = record {
    at = λ s. o.chain s (m s).1 _ (hm.at s) ((Relates-continue (m s).0 f hf).at (m s).1);
  }

-- Both branches of a test.
module _ {ℓ κ μ} {S : Type ℓ} {R : S → S → Type κ} {A : Type μ} where
  pub Relates-elim :
      (c : Bool) (x y : Exec S A)
      → (c ≡ true → Relates R x)
      → Relates R y
      → Relates R (elim c as (λ _. Exec S A) [ false ↦ y | true ↦ x ])
  Relates-elim true x y hx hy = hx refl
  Relates-elim false x y hx hy = hy

  pub Relates-if :
      (c : Bool) (x y : Exec S A)
      → (c ≡ true → Relates R x)
      → Relates R y
      → Relates R (if c then x else y)
  Relates-if true x y hx hy = hx refl
  Relates-if false x y hx hy = hy

module _ {ℓ κ π} {S : Type ℓ} {A : Type κ} where
  pub elim-cases :
      (c : Bool) (x y : Exec S A) (s : S) (P : S → Type π)
      → (c ≡ true → P (x s).1)
      → (c ≡ false → P (y s).1)
      → P ((elim c as (λ _. Exec S A) [ false ↦ y | true ↦ x ]) s).1
  elim-cases true x y s P hx hy = hx refl
  elim-cases false x y s P hx hy = hy refl

-- Blocks that agree after what they have in common.
module _ {ℓ κ μ} {S : Type ℓ} {A : Type κ} {B : Type μ} where
  pub bind_agree :
      (m : Exec S A) (f g : A → Exec S B) (s : S)
      → ((a : A) → f a (m s).1 ≡ g a (m s).1)
      → (m >>= f) s ≡ (m >>= g) s
  unfolding ◌>>=◌
  bind_agree m f g s h = go (m s).0
    where
      go : (r : Result A) → continue r f (m s).1 ≡ continue r g (m s).1
      go (ok a) = h a
      go (err e) = refl

module _ {ℓ κ} {S : Type ℓ} {A : Type κ} where
  pub elim_agree :
      (c : Bool) (w x y z : Exec S A) (s : S)
      → (c ≡ true → w s ≡ y s)
      → (c ≡ false → x s ≡ z s)
      → (elim c as (λ _. Exec S A) [ false ↦ x | true ↦ w ]) s
        ≡ (elim c as (λ _. Exec S A) [ false ↦ z | true ↦ y ]) s
  elim_agree true w x y z s h k = h refl
  elim_agree false w x y z s h k = k refl
