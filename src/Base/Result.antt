-- ===== src/Base/Result.antt =====
-- Python code that may raise. The error is the exception's message, or the class of a built-in one.
use Prim.Native.String.{String}
use mathlib.Core.Path.{◌≡◌, refl}
use mathlib.Core.Bool.{Bool, true, false, not}

pub data Result {ℓ} (A : Type ℓ) : Type ℓ where
  ok : A → Result A
  err : String → Result A

infixl 10 ◌>>=◌ ◌>>◌
abbrev pub ◌>>=◌ {ℓ κ} : {A : Type ℓ} {B : Type κ} → Result A → (A → Result B) → Result B
err reason >>= next = err reason
ok value >>= next = next value

abbrev pub ◌>>◌ {ℓ κ} : {A : Type ℓ} {B : Type κ} → Result A → Result B → Result B
m >> k = m >>= λ _. k

-- `if b: raise ...`
abbrev pub refuse : Bool → String → Result (Unit {0})
refuse true e = err e
refuse false e = ok tt

-- `try: r except: _fail(e)`
abbrev pub or_else : {A : Type 0} → Result A → String → Result A
or_else (ok a) e = ok a
or_else (err _) e = err e

-- What a block that did not raise has computed.
pub >>=-ok {ℓ κ} :
    {A : Type ℓ} {B : Type κ} (run : Result A) (next : A → Result B) {b : B}
    → (run >>= next) ≡ ok b
    → (a : A) × (run ≡ ok a) × (next a ≡ ok b)
>>=-ok (ok a) next h = (a, refl, h)
>>=-ok (err e) next h = cc

pub refuse-ok {ℓ} :
    {B : Type ℓ} (c : Bool) (e : String) (k : Result B) {b : B}
    → (refuse c e >> k) ≡ ok b
    → (c ≡ false) × (k ≡ ok b)
refuse-ok true e k h = cc
refuse-ok false e k h = (refl, h)

pub refuse-pass : (c : Bool) (e : String) → c ≡ false → refuse c e ≡ ok tt
refuse-pass true e h = cc
refuse-pass false e h = refl

pub refuse_passed : (c : Bool) (e : String) {u : Unit {0}} → refuse c e ≡ ok u → c ≡ false
refuse_passed true e h = absurd (cc (h))
refuse_passed false e h = refl

pub refuse_unless : (c : Bool) (e : String) {u : Unit {0}} → refuse (not c) e ≡ ok u → c ≡ true
refuse_unless true e h = refl
refuse_unless false e h = absurd (cc (h))

pub ok_same {ℓ} : {A : Type ℓ} {a b : A} → ok a ≡ ok b → a ≡ b
ok_same h = cc (h)

pub never {ℓ κ} : {A : Type ℓ} {P : Type κ} {e : String} {b : A} → err e ≡ ok b → P
never h = absurd (cc (h))

pub or_else-ok : {A : Type 0} (m : Result A) (e : String) {a : A} → or_else m e ≡ ok a → m ≡ ok a
or_else-ok (ok b) e h = h
or_else-ok (err _) e h = absurd (cc (h))
