-- ===== src/Controller/Run.antt =====
-- Calls that change the state of the cluster: the state stays as the calls left it, whatever the
-- result.
use atom_operator.Prelude.{◌≡◌, refl}
use atom_operator.Prelude.Result.{Result, ok, err, panic}

abbrev pub Run {ℓ} : Type ℓ → Type ℓ → Type ℓ
Run W A = W → W × Result A

abbrev pub after {ℓ} : {W A B : Type ℓ} → W × Result A → (A → Run W B) → W × Result B
after (w, ok a) f = f a w
after (w, err e) f = (w, err e)
after (w, panic v) f = (w, panic v)

infixl 5 ◌>>=◌
abbrev pub ◌>>=◌ {ℓ} : {W A B : Type ℓ} → Run W A → (A → Run W B) → Run W B
(m >>= f) w = after (m w) f

-- A call whose result is not used.
infixl 5 ◌>>◌
abbrev pub ◌>>◌ {ℓ} : {W A B : Type ℓ} → Run W A → Run W B → Run W B
(m >> n) w = after (m w) (λ _. n)

-- A computation that leaves the cluster alone.
abbrev pub pure {ℓ} : {W A : Type ℓ} → Result A → Run W A
pure r w = (w, r)

pub after-eq-ok {ℓ} :
    {W A B : Type ℓ} (m : W × Result A) (f : A → Run W B) {w : W} {b : B}
    → after m f ≡ (w, ok b)
    → (w' : W) × (a : A) × (m ≡ (w', ok a)) × (f a w' ≡ (w, ok b))
after-eq-ok (w', ok a) f h = (w', a, refl, h)
after-eq-ok (w', err e) f h = cc
after-eq-ok (w', panic v) f h = cc

pub pure-eq-ok {ℓ} :
    {W A B : Type ℓ} (r : Result A) (w : W) (f : A → Run W B) {w' : W} {b : B}
    → after (w, r) f ≡ (w', ok b)
    → (a : A) × (r ≡ ok a) × (f a w ≡ (w', ok b))
pure-eq-ok (ok a) w f h = (a, refl, h)
pure-eq-ok (err e) w f h = cc
pure-eq-ok (panic v) w f h = cc

pub bind-eq-ok {ℓ} :
    {W A B : Type ℓ} (m : Run W A) (f : A → Run W B) (w : W) {w' : W} {b : B}
    → (m >>= f) w ≡ (w', ok b)
    → (w₁ : W) × (a : A) × (m w ≡ (w₁, ok a)) × (f a w₁ ≡ (w', ok b))
bind-eq-ok m f w h = after-eq-ok (m w) f h
