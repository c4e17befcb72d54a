-- ===== src/Common/Results.antt =====
-- Functions that may raise: a value, or the error that ended the call.
use mathlib.Core.Path.{◌≡◌, refl, ap}
use mathlib.Core.Bool.{Bool, true, false}
use mathlib.Core.List.{List, [], ◌∷◌}

pub data Result {ℓ κ} (E : Type ℓ) (A : Type κ) : Type (ℓ ⊔ κ) where
  ok : A → Result E A
  err : E → Result E A

infixl 5 ◌>>=◌ ◌>>◌
abbrev pub ◌>>=◌ {ℓ κ μ} :
    {E : Type ℓ} {A : Type κ} {B : Type μ} → Result E A → (A → Result E B) → Result E B
ok value >>= next = next value
err error >>= next = err error

abbrev pub ◌>>◌ {ℓ κ} : {E : Type ℓ} {B : Type κ} → Result E (Unit {0}) → Result E B → Result E B
m >> k = m >>= λ _. k

-- `if b: raise e`
abbrev pub raise_if {ℓ} : {E : Type ℓ} → Bool → E → Result E (Unit {0})
raise_if true e = err e
raise_if false e = ok tt

-- `for x in xs: body(x)`, where the body may raise
unfoldable pub for_each {ℓ κ} :
    {E : Type ℓ} {A : Type κ} → (A → Result E (Unit {0})) → List A → Result E (Unit {0})
for_each body [] = ok tt
for_each body (x ∷ xs) = body x >> for_each body xs

pub >>=-eq-ok {ℓ κ μ} :
    {E : Type ℓ} {A : Type κ} {B : Type μ} (first : Result E A) (next : A → Result E B) {end : B}
    → (first >>= next) ≡ ok end
    → (value : A) × (first ≡ ok value) × (next value ≡ ok end)
>>=-eq-ok (ok value) next run = (value, refl, run)
>>=-eq-ok (err e) next run = cc

pub >>=_congr {ℓ κ μ} :
    {E : Type ℓ} {A : Type κ} {B : Type μ} (first : Result E A) {f g : A → Result E B}
    → ((value : A) → f value ≡ g value)
    → (first >>= f) ≡ (first >>= g)
>>=_congr (ok value) h = h value
>>=_congr (err e) h = refl

-- A chain of calls that never ends in the error `bad`.
pub >>=-ne-err {ℓ κ μ} :
    {E : Type ℓ} {A : Type κ} {B : Type μ} (bad : E) (first : Result E A) (next : A → Result E B)
    → (first ≡ err bad → ⊥)
    → ((value : A) → first ≡ ok value → next value ≡ err bad → ⊥)
    → (first >>= next) ≡ err bad
    → ⊥
>>=-ne-err bad (ok value) next clean later run = later value refl run
>>=-ne-err bad (err e) next clean later run =
    clean (ap (λ end. elim end [ ok b ↦ err bad | err f ↦ err f ]) run)

pub ok_injective {ℓ κ} :
    {E : Type ℓ} {A : Type κ} {x y : A} → ◌≡◌ {A = Result E A} (ok x) (ok y) → x ≡ y
ok_injective e = cc
