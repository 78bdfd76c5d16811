-- ===== src/Engine/Failure.antt =====
-- How a failed step is classified, and which failures a retry rule matches: engine/errors.go, with
-- internal/grpcstatus/grpcstatus.go. The texts are ASCII; a status is not negative.
use aat.Base.{
  ℕ, suc, ◌+◌, ◌-◌, ◌*◌, ◌/◌, List, [], ◌∷◌, reverse, map, Bool, true, false, not, ◌&&◌, ◌||◌,
  if◌then◌else◌, ◌==◌, ltb, leb, Option, none, some, or_else,
}
use aat.Base.Text.{Text, codes, text_eq}

pub data ErrorCategory : Type 0 where
  transient client auth server adapter network timeout response_error : ErrorCategory

abbrev pub category_text : ErrorCategory → Text
category_text transient = codes "transient"
category_text client = codes "client"
category_text auth = codes "auth"
category_text server = codes "server"
category_text adapter = codes "adapter"
category_text network = codes "network"
category_text timeout = codes "timeout"
category_text response_error = codes "response_error"

-- `classifyStatusCode`; `none` is its `(0, false)`.
unfoldable pub classify_status_code : ℕ → Option ErrorCategory
classify_status_code code =
    if ltb code 400
    then none
    else if code == 401 || code == 403
    then some auth
    else if code == 429
    then some transient
    else if code == 500 || code == 501
    then some server
    else if code == 502 || code == 503 || code == 504
    then some transient
    else if leb 400 code && ltb code 500
    then some client
    else some server

abbrev pub default_retryable : ErrorCategory → Bool
default_retryable transient = true
default_retryable timeout = true
default_retryable server = true
default_retryable _ = false

pub record RetryFailure : Type 0 where
  pub category : ErrorCategory
  pub status : ℕ
  pub grpc_name : Text

abbrev is_response_error : ErrorCategory → Bool
is_response_error response_error = true
is_response_error _ = false

-- `statusCategory`: the category of a status of 400 and above, which always has one.
unfoldable pub status_category : RetryFailure → Option ErrorCategory
status_category f =
    if not (is_response_error (f.category)) || ltb (f.status) 400
    then none
    else classify_status_code (f.status)

-- `plan.RetryConfig`.
pub record RetryConfig : Type 0 where
  pub max_retries : ℕ
  pub on : List Text
  pub fail_on : List Text

-- `strings.TrimSpace`, `strings.ToUpper` and `strings.EqualFold` of ASCII texts.
abbrev is_blank : ℕ → Bool
is_blank c = c == 32 || leb 9 c && leb c 13

abbrev drop_blanks : Text → Text
drop_blanks [] = []
drop_blanks (c ∷ s) = if is_blank c then drop_blanks s else c ∷ s

abbrev pub trim_space : Text → Text
trim_space s = reverse (drop_blanks (reverse (drop_blanks s)))

abbrev upper : ℕ → ℕ
upper c = if leb b'a' c && leb c b'z' then c - 32 else c

abbrev pub equal_fold : Text → Text → Bool
equal_fold s t = text_eq (map upper s) (map upper t)

abbrev remove_dashes : Text → Text
remove_dashes [] = []
remove_dashes (c ∷ s) = if c == b'-' || c == b'_' then remove_dashes s else c ∷ remove_dashes s

unfoldable pub fold_name : Text → Text
fold_name s = remove_dashes (map upper (trim_space s))

-- The table of codes: the code of a row is its place.
abbrev pub code_names : List Text
code_names =
    codes "OK"
    ∷ codes "CANCELLED"
    ∷ codes "UNKNOWN"
    ∷ codes "INVALID_ARGUMENT"
    ∷ codes "DEADLINE_EXCEEDED"
    ∷ codes "NOT_FOUND"
    ∷ codes "ALREADY_EXISTS"
    ∷ codes "PERMISSION_DENIED"
    ∷ codes "RESOURCE_EXHAUSTED"
    ∷ codes "FAILED_PRECONDITION"
    ∷ codes "ABORTED"
    ∷ codes "OUT_OF_RANGE"
    ∷ codes "UNIMPLEMENTED"
    ∷ codes "INTERNAL"
    ∷ codes "UNAVAILABLE"
    ∷ codes "DATA_LOSS"
    ∷ codes "UNAUTHENTICATED"
    ∷ []

abbrev pub search_names : Text → ℕ → List Text → Option ℕ
search_names key code [] = none
search_names key code (n ∷ ns) =
    if text_eq (fold_name n) key then some code else search_names key (suc code) ns

unfoldable pub code_by_name : Text → Option ℕ
code_by_name name =
    if text_eq (fold_name name) (codes "CANCELED")
    then some 1
    else search_names (fold_name name) 0 code_names

-- `strconv.Atoi`: a sign and a magnitude, which has a digit and fits in 64 bits.
abbrev digits_value : ℕ → Text → Option ℕ
digits_value n [] = some n
digits_value n (c ∷ s) =
    if leb b'0' c && leb c b'9' then digits_value (n * 10 + (c - b'0')) s else none

abbrev magnitude : ℕ → Text → Option ℕ
magnitude bound [] = none
magnitude bound (c ∷ s) = elim (digits_value 0 (c ∷ s)) [
  | none ↦ none
  | some n ↦ if leb n bound then some n else none
]

abbrev signed : Bool → Option ℕ → Option (Bool × ℕ)
signed b none = none
signed b (some n) = some (b, n)

unfoldable pub atoi : Text → Option (Bool × ℕ)
atoi [] = none
atoi (c ∷ s) =
    if c == b'-'
    then signed true (magnitude 9223372036854775808 s)
    else if c == b'+'
    then signed false (magnitude 9223372036854775807 s)
    else signed false (magnitude 9223372036854775807 (c ∷ s))

abbrev same_code : Option ℕ → ℕ → Bool
same_code none code = false
same_code (some n) code = n == code

abbrev is_empty : Text → Bool
is_empty [] = true
is_empty (c ∷ s) = false

abbrev names_category : Text → Option ErrorCategory → Bool
names_category rule none = false
names_category rule (some c) = equal_fold rule (category_text c)

abbrev rule_matches : Option (Bool × ℕ) → Option ℕ → Text → RetryFailure → Bool
rule_matches (some (negative, code)) _ rule f =
    not (f.status == 0) && not negative && code == f.status
rule_matches none (some code) rule f =
    not (is_empty (f.grpc_name)) && same_code (code_by_name (f.grpc_name)) code
rule_matches none none rule f =
    names_category rule (status_category f) || equal_fold rule (category_text (f.category))

unfoldable pub retry_rule_matches : Text → RetryFailure → Bool
retry_rule_matches rule f =
    rule_matches (atoi (trim_space rule)) (code_by_name (trim_space rule)) (trim_space rule) f

abbrev pub matches_any : List Text → RetryFailure → Bool
matches_any [] f = false
matches_any (rule ∷ rules) f = retry_rule_matches rule f || matches_any rules f

abbrev pub may_retry : List Text → RetryFailure → Bool
may_retry [] f = default_retryable (or_else (status_category f) (f.category))
may_retry (rule ∷ rules) f = matches_any (rule ∷ rules) f

-- `shouldRetry`; the `nil` configuration is `none`.
unfoldable pub should_retry : RetryFailure → Option RetryConfig → ℕ → Bool
should_retry f none attempt = false
should_retry f (some config) attempt =
    leb attempt (config.max_retries)
    && not (matches_any (config.fail_on) f)
    && may_retry (config.on) f

-- `config.ExpectedStatus`.
pub record ExpectedStatus : Type 0 where
  pub code : ℕ
  pub name : Text
  pub class : ℕ

unfoldable pub expects : ExpectedStatus → ℕ → Text → Bool
expects e status grpc_name =
    if not (e.class == 0)
    then status / 100 == e.class
    else if not (is_empty (e.name)) && not (is_empty grpc_name)
    then equal_fold (e.name) grpc_name
    else e.code == status

unfoldable pub any_expects : List ExpectedStatus → ℕ → Text → Bool
any_expects [] status grpc_name = false
any_expects (e ∷ es) status grpc_name =
    expects e status grpc_name || any_expects es status grpc_name
