-- ===== src/Controller/Kept.antt =====
-- What outlives a run: one rule for each way to build a run.
use atom_operator.Prelude.{◌≡◌, refl}
use atom_operator.Prelude.Result.{Result, ok, err, panic}
use atom_operator.Controller.Run.{Run, after, pure, ◌>>=◌}

module _ {W : Type 0} (P : W → Type 0) where
  -- `P` outlives the run.
  abbrev pub Kept : {A : Type 0} → Run W A → Type 0
  Kept m = (w : W) → P w → P (m w).0

  pub Kept-pure : {A : Type 0} (r : Result A) → Kept (pure r)
  Kept-pure r w h = h

  pub Kept-after :
      {A B : Type 0} (p : W × Result A) (f : A → Run W B)
      → P p.0
      → ((a : A) → Kept (f a))
      → P (after p f).0
  Kept-after (w, ok a) f h k = k a w h
  Kept-after (w, err e) f h k = h
  Kept-after (w, panic v) f h k = h

  pub Kept-bind :
      {A B : Type 0} (m : Run W A) (f : A → Run W B)
      → Kept m
      → ((a : A) → Kept (f a))
      → Kept (m >>= f)
  Kept-bind m f h k w p = Kept-after (m w) f (h w p) k

  pub Kept-pure-bind :
      {A B : Type 0} (r : Result A) (f : A → Run W B)
      → ((a : A) → r ≡ ok a → Kept (f a))
      → Kept (pure r >>= f)
  Kept-pure-bind (ok a) f k w p = k a refl w p
  Kept-pure-bind (err e) f k w p = p
  Kept-pure-bind (panic v) f k w p = p
