-- ===== src/Outcome.antt =====
-- Stateful code that may throw: a state goes in, and what comes out is a value or an exception,
-- with the state at that point. The exceptions are those of cosmos that the code tells apart.
use clues.Common.{ℕ, Bool, true, false}

-- `api_error` is cosmos::ApiError with its errno; then RuntimeError and UsageError. A read through a
-- null pointer or an empty optional, which is undefined in C++, ends a run as `null_dereference`, and
-- so does the increment of an erased iterator as `invalid_iterator`.
pub data Exception : Type 0 where
  api_error : ℕ → Exception
  runtime_error usage_error : Exception
  null_dereference invalid_iterator : Exception

pub data Outcome (S A : Type 0) : Type 0 where
  returns : A → S → Outcome S A
  throws : Exception → S → Outcome S A

-- What a request to the kernel answers: a value, or the errno of an ApiError.
pub data Response (A : Type 0) : Type 0 where
  ok : A → Response A
  fails : ℕ → Response A

abbrev pub M : Type 0 → Type 0 → Type 0
M S A = S → Outcome S A

abbrev pub pure : {S A : Type 0} → A → M S A
pure a s = returns a s

infixl 5 ◌>>=◌ ◌>>◌
abbrev pub ◌>>=◌ : {S A B : Type 0} → M S A → (A → M S B) → M S B
◌>>=◌ m f s = elim (m s) [ returns a t ↦ f a t | throws e t ↦ throws e t ]

abbrev pub ◌>>◌ : {S B : Type 0} → M S (Unit {0}) → M S B → M S B
m >> k = m >>= λ _. k

-- `try { m } catch (e) { handler e }`.
abbrev pub catch : {S A : Type 0} → M S A → (Exception → M S A) → M S A
catch m handler s = elim (m s) [ returns a t ↦ returns a t | throws e t ↦ handler e t ]

abbrev pub throw : {S A : Type 0} → Exception → M S A
throw e s = throws e s

abbrev pub get : {S : Type 0} → M S S
get s = returns s s

abbrev pub modify : {S : Type 0} → (S → S) → M S (Unit {0})
modify f s = returns tt (f s)

abbrev pub skip : {S : Type 0} → M S (Unit {0})
skip s = returns tt s

abbrev pub when : {S : Type 0} → Bool → M S (Unit {0}) → M S (Unit {0})
when true m = m
when false m = skip

-- The state in which a run ended.
abbrev pub final : {S A : Type 0} → Outcome S A → S
final (returns a s) = s
final (throws e s) = s

-- ESRCH, ECHILD, EINTR and ENODATA.
abbrev pub errno_search : ℕ
errno_search = 3

abbrev pub errno_no_child : ℕ
errno_no_child = 10

abbrev pub errno_interrupted : ℕ
errno_interrupted = 4

abbrev pub errno_no_data : ℕ
errno_no_data = 61
