-- ===== src/Errors.antt =====
-- The error values that the code tells apart, and internal/feed/errors.go, which classifies them.
use rss2msg.Prelude.{
  ◌≡◌, refl, ◌⊎◌, inl, inr, ℕ, Str, lit, List, length, decimal, quoted, join_comma, ◌++◌, ◌∷◌, Bool,
  true, false, Option, none, some, not, ◌||◌, leb, ◌==◌,
}

-- `FetchError.Op`
pub data Op : Type 0 where
  request transport parse status : Op

-- `canceled` is context.Canceled, `deadline_exceeded` is context.DeadlineExceeded; `wrap` is
-- fmt.Errorf with a text before one %w, `join` is errors.Join, `dlq_failed` is the error of
-- `Deliver` with two %w, `children_dropped` the error of a composite
-- (its name, the children), `fetch` is *FetchError with its status; any other error is `other`.
pub data Err : Type 0 where
  canceled : Err
  deadline_exceeded : Err
  other : Str → Err
  wrap : Str → Err → Err
  join : Err → Err → Err
  dlq_failed : Err → Err → Err
  children_dropped : Str → List Str → Err
  fetch : Op → ℕ → Err → Err

-- errors.Is(err, context.Canceled)
unfoldable pub is_canceled : Err → Bool
is_canceled canceled = true
is_canceled deadline_exceeded = false
is_canceled (other _) = false
is_canceled (wrap _ e) = is_canceled e
is_canceled (join d e) = is_canceled d || is_canceled e
is_canceled (dlq_failed d e) = is_canceled d || is_canceled e
is_canceled (children_dropped _ _) = false
is_canceled (fetch _ _ e) = is_canceled e

-- err.Error()
unfoldable pub error_text : Err → Str
unfolding decimal join_comma
error_text canceled = lit "context canceled"
error_text deadline_exceeded = lit "context deadline exceeded"
error_text (other s) = s
error_text (wrap s e) = s ++ error_text e
error_text (join d e) = error_text d ++ (10 ∷ error_text e)
error_text (dlq_failed d e) =
    lit "primary err=" ++ (error_text d ++ (lit "; dlq err=" ++ error_text e))
error_text (children_dropped sink ds) =
    lit "composite sink "
    ++ (quoted sink
        ++ (lit ": " ++ (decimal (length ds) ++ (lit " child sink(s) dropped: " ++ join_comma ds))))
error_text (fetch _ _ e) = error_text e

-- The fields of a *FetchError.
pub record FetchError : Type 0 where
  pub op : Op
  pub status : ℕ
  pub err : Err

abbrev or_else : Option FetchError → Option FetchError → Option FetchError
or_else none b = b
or_else (some a) b = some a

-- errors.As(err, &fe): the first *FetchError of the tree, depth first.
unfoldable pub as_fetch_error : Err → Option FetchError
as_fetch_error canceled = none
as_fetch_error deadline_exceeded = none
as_fetch_error (other _) = none
as_fetch_error (wrap _ e) = as_fetch_error e
as_fetch_error (join d e) = or_else (as_fetch_error d) (as_fetch_error e)
as_fetch_error (dlq_failed d e) = or_else (as_fetch_error d) (as_fetch_error e)
as_fetch_error (children_dropped _ _) = none
as_fetch_error (fetch o n e) = some (record { op = o; status = n; err = e })

abbrev retryable_op : Op → ℕ → Err → Bool
retryable_op transport n e = not (is_canceled e)
retryable_op status n e = leb 500 n || n == 429
retryable_op parse n e = false
retryable_op request n e = false

abbrev retryable_fetch : Option FetchError → Bool
retryable_fetch none = false
retryable_fetch (some fe) = retryable_op fe.op fe.status fe.err

unfoldable pub is_retryable : Err → Bool
unfolding as_fetch_error is_canceled
is_retryable err = retryable_fetch (as_fetch_error err)

-- The result of a call that returns a value or an error.
pub data Result {ℓ} (A : Type ℓ) : Type ℓ where
  ok : A → Result A
  err : Err → Result A

pub Result-cases {ℓ} :
    {A : Type ℓ} (r : Result A) → ((e : Err) × (r ≡ err e)) ⊎ ((a : A) × (r ≡ ok a))
Result-cases (err e) = inl (e, refl)
Result-cases (ok a) = inr (a, refl)
