-- ===== src/Shared/Result.antt =====
-- Go's pair of a value and an error, of which a caller reads the value only when the error is nil.
use mathlib.Core.Path.{◌≡◌, refl}
use mathlib.Core.Logic.{◌⊎◌, inl, inr}
use mathlib.Core.List.{List, [], ◌∷◌}
use mathlib.Core.Option.{Option, none, some}

pub data Result {ℓ} (E A : Type ℓ) : Type ℓ where
  ok : A → Result E A
  err : E → Result E A

infixl 5 ◌>>=◌ ◌>>◌
abbrev pub ◌>>=◌ {ℓ} : {E A B : Type ℓ} → Result E A → (A → Result E B) → Result E B
ok a >>= f = f a
err e >>= f = err e

abbrev pub ◌>>◌ : {E B : Type 0} → Result E (Unit {0}) → Result E B → Result E B
m >> k = m >>= λ _. k

-- if v, err := f(); err != nil { return wrap(err) }
abbrev pub or_fail {ℓ} : {E A : Type ℓ} → Option A → E → Result E A
or_fail none e = err e
or_fail (some a) e = ok a

abbrev pub map_err {ℓ} : {D E A : Type ℓ} → (D → E) → Result D A → Result E A
map_err f (ok a) = ok a
map_err f (err e) = err (f e)

-- if err != nil { errs = append(errs, err) }
abbrev pub cons_error {ℓ} : {E : Type ℓ} → Option E → List E → List E
cons_error none es = es
cons_error (some e) es = e ∷ es

pub >>=-eq-ok {ℓ} :
    {E A B : Type ℓ} (r : Result E A) (next : A → Result E B) {out : B}
    → (r >>= next) ≡ ok out
    → (mid : A) × (r ≡ ok mid) × (next mid ≡ ok out)
>>=-eq-ok (ok mid) next p = (mid, refl, p)
>>=-eq-ok (err cause) next p = cc

-- A loop over a collection whose body changes a state and may report one error: the loop goes on,
-- and the errors are gathered in order.
unfoldable pub for_each {ℓ κ μ} :
    {A : Type ℓ} {S : Type κ} {E : Type μ} → (A → S → S × Option E) → List A → S → S × List E
for_each body [] s = (s, [])
for_each body (a ∷ rest) s =
    let (s', e) = body a s in let (s'', es) = for_each body rest s' in (s'', cons_error e es)

pub map_err-eq-ok {ℓ} :
    {D E A : Type ℓ} (f : D → E) (m : Result D A) {a : A} → map_err f m ≡ ok a → m ≡ ok a
map_err-eq-ok f (ok b) h = cc
map_err-eq-ok f (err e) h = cc

pub ok-injective {ℓ} : {E A : Type ℓ} {a b : A} → ◌≡◌ {A = Result E A} (ok a) (ok b) → a ≡ b
ok-injective h = cc

pub Result-cases {ℓ} :
    {E A : Type ℓ} (r : Result E A) → ((e : E) × (r ≡ err e)) ⊎ ((a : A) × (r ≡ ok a))
Result-cases (ok a) = inr (a, refl)
Result-cases (err e) = inl (e, refl)
