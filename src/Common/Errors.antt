-- ===== src/Common/Errors.antt =====
-- Go errors that wrap one another, and calls chained on Go's pair of a value and an error.
use semvi_btp.Common.Outcome.{Try, ok, err}
use Prim.Native.String.{String}
use mathlib.Core.Option.{Option, none, some}

-- An error of a library, an error that is a text alone, and xerrors.Errorf with "%w".
pub data GoError (E : Type 0) : Type 0 where
  raised : E → GoError E
  message : String → GoError E
  wrapped : String → GoError E → GoError E

-- What errors.As finds in a chain: the library's error at its end.
abbrev pub root : {E : Type 0} → GoError E → Option E
root (raised e) = some e
root (message text) = none
root (wrapped text e) = root e

module _ {E A B : Type 0} where
  abbrev pub chain : Try E A → (A → Try E B) → Try E B
  chain (ok a) f = f a
  chain (err e) f = err e

module _ {E A : Type 0} where
  -- The value, or the error wrapped in a text.
  abbrev pub wrap_error : String → Try (GoError E) A → Try (GoError E) A
  wrap_error text (ok a) = ok a
  wrap_error text (err e) = err (wrapped text e)

module _ {E : Type 0} where
  -- An error, if there is one, wrapped in a text.
  abbrev pub wrap_failure : String → Option (GoError E) → Option (GoError E)
  wrap_failure text none = none
  wrap_failure text (some e) = some (wrapped text e)
