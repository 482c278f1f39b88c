-- ===== src/Base/Failing.antt =====
-- A computation that may raise an exception, as a value.
use mathlib.Core.Path.{◌≡◌, refl, sym}
use mathlib.Core.Bool.{Bool, true, false}
use mathlib.Core.Logic.{◌⊎◌, inl, inr}
use mathlib.Core.List.{List, [], ◌∷◌}
use pyrepo_check.Base.Tests.{if◌then◌else◌}
use pyrepo_check.Base.Lists.{is_empty}

pub data Outcome {ℓ} (E A : Type ℓ) : Type ℓ where
  returned : A → Outcome E A
  raised : E → Outcome E A

infixl 5 ◌>>=◌ ◌>>◌
abbrev pub ◌>>=◌ {ℓ} : {E A B : Type ℓ} → Outcome E A → (A → Outcome E B) → Outcome E B
returned a >>= f = f a
raised e >>= f = raised e

abbrev pub ◌>>◌ {ℓ} : {E B : Type ℓ} → Outcome E Unit → Outcome E B → Outcome E B
m >> k = m >>= λ _. k

-- `if not test: raise error`
abbrev pub require {ℓ} : {E : Type ℓ} → Bool → E → Outcome E Unit
require true e = returned tt
require false e = raised e

-- `if test: raise error`
abbrev pub refuse {ℓ} : {E : Type ℓ} → Bool → E → Outcome E Unit
refuse true e = raised e
refuse false e = returned tt

-- Inversion of a successful chain.
pub >>=-eq-returned {ℓ} :
    {E A B : Type ℓ} (m : Outcome E A) (f : A → Outcome E B) {b : B}
    → (m >>= f) ≡ returned b
    → (a : A) × (m ≡ returned a) × (f a ≡ returned b)
>>=-eq-returned (returned a) f h = (a, refl, h)
>>=-eq-returned (raised e) f h = cc

pub refuse-eq-returned {ℓ} :
    {E B : Type ℓ} (test : Bool) (e : E) (k : Outcome E B) {b : B}
    → (refuse test e >> k) ≡ returned b
    → (test ≡ false) × (k ≡ returned b)
refuse-eq-returned false e k h = (refl, h)
refuse-eq-returned true e k h = cc

pub refuse-returned {ℓ} :
    {E : Type ℓ} (test : Bool) (e : E) {u : Unit} → refuse test e ≡ returned u → test ≡ false
refuse-returned false e h = refl
refuse-returned true e h = cc

pub returned-injective {ℓ} :
    {E A : Type ℓ} {a b : A} → ◌≡◌ {A = Outcome E A} (returned a) (returned b) → a ≡ b
returned-injective h = cc

-- The shape of a check that collects what is wrong and returns only if that is nothing.
pub if_is_empty-returned {ℓ} :
    {E A B : Type ℓ} (wrong : List B) (a : A) (e : E) {r : A}
    → (if is_empty wrong then returned a else raised e) ≡ returned r
    → (wrong ≡ []) × (r ≡ a)
if_is_empty-returned [] a e h = (refl, sym (returned-injective h))
if_is_empty-returned (w ∷ wrong) a e h = cc

pub >>=-cong {ℓ} :
    {E A B : Type ℓ} (m : Outcome E A) {n : Outcome E A} {f g : A → Outcome E B}
    → m ≡ n
    → ((a : A) → f a ≡ g a)
    → (m >>= f) ≡ (n >>= g)
>>=-cong {E} {A} m {n} {f} {g} p h = rw p (go n)
  where
    go : (n : Outcome E A) → (n >>= f) ≡ (n >>= g)
    go (returned a) = h a
    go (raised e) = refl

pub Outcome-cases {ℓ} :
    {E A : Type ℓ} (m : Outcome E A) → ((a : A) × (m ≡ returned a)) ⊎ ((e : E) × (m ≡ raised e))
Outcome-cases (returned a) = inl (a, refl)
Outcome-cases (raised e) = inr (e, refl)

-- One fallible step for each item of a sequence, the first failure ending the walk.
abbrev pub traverse {ℓ} : {E A B : Type ℓ} → (A → Outcome E B) → List A → Outcome E (List B)
traverse f [] = returned []
traverse f (x ∷ xs) = let rest = traverse f xs in f x >>= λ y. rest >>= λ ys. returned (y ∷ ys)
