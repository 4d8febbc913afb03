-- ===== src/Sds/Exec.antt =====
-- Methods of channel.rs that may fail: what was written before a `?` returns stays written, so the
-- state comes back beside the error.
use lmao.Prelude.Result.{Result, ok, err}
use lmao.Transport.{TransportError}

abbrev pub Exec : Type 0 → Type 0 → Type 0
Exec S A = S → Result TransportError A × S

module _ {S A : Type 0} where
  abbrev pub pure : A → Exec S A
  pure a s = (ok a, s)

  abbrev pub raise : TransportError → Exec S A
  raise e s = (err e, s)

module _ {S A B : Type 0} where
  abbrev pub continue : Result TransportError A → (A → Exec S B) → Exec S B
  continue (ok a) f s = f a s
  continue (err e) f s = (err e, s)

  infixl 5 ◌>>=◌ ◌>>◌
  abbrev pub ◌>>=◌ : Exec S A → (A → Exec S B) → Exec S B
  ◌>>=◌ m f s = let (r, s') = m s in continue r f s'

  abbrev pub ◌>>◌ : Exec S A → Exec S B → Exec S B
  m >> n = m >>= λ _. n
