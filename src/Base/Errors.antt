-- ===== src/Base/Errors.antt =====
-- Rust's `Result<A, E>`, with `?` as bind, and a computation that may panic.
use mathlib.Core.Option.{Option, none, some}

pub data Result (A E : Type 0) : Type 0 where
  ok : A → Result A E
  err : E → Result A E

infixl 5 ◌>>=◌
abbrev pub ◌>>=◌ : {A B E : Type 0} → Result A E → (A → Result B E) → Result B E
ok a >>= f = f a
err e >>= f = err e

-- `o.ok_or_else(|| e)`
abbrev pub ok_or_else : {A E : Type 0} → Option A → E → Result A E
ok_or_else none e = err e
ok_or_else (some a) e = ok a

-- `r.map_err(f)`
abbrev pub map_err : {A D E : Type 0} → (D → E) → Result A D → Result A E
map_err f (ok a) = ok a
map_err f (err d) = err (f d)

-- What a call that may panic does.
pub data Outcome (A : Type 0) : Type 0 where
  panics : Outcome A
  returns : A → Outcome A
