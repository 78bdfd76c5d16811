-- ===== src/Engine/Status.antt =====
-- How an expected status is read and written: config/expected_status.go, with the class of
-- internal/httpstatus and the table of internal/grpcstatus. The texts are ASCII, and a number is
-- not negative.
pub mod RoundTrip
use aat.Base.{
  ℕ, suc, ◌-◌, List, [], ◌∷◌, ◌++◌, Bool, ◌&&◌, if◌then◌else◌, ◌==◌, leb, Option, none, some,
}
use aat.Base.Text.{Text, codes}
use aat.Base.Decimal.{decimal}
use aat.Engine.Failure.{ExpectedStatus, equal_fold, code_names, code_by_name}

-- A scalar of a plan or an archive.
pub data Written : Type 0 where
  text : Text → Written
  number : ℕ → Written

-- `httpstatus.Class` of a text.
unfoldable pub class_of : Text → Option ℕ
class_of (d ∷ x ∷ y ∷ []) =
    if leb b'1' d && leb d b'5' && equal_fold (x ∷ y ∷ []) (codes "xx")
    then some (d - b'0')
    else none
class_of _ = none

-- The HTTP statuses of `table`.
abbrev pub http_statuses : List ℕ
http_statuses =
    200 ∷ 499 ∷ 500 ∷ 400 ∷ 504 ∷ 404 ∷ 409 ∷ 403 ∷ 429 ∷ 400 ∷ 409 ∷ 400 ∷ 501 ∷ 500 ∷ 503 ∷ 500
    ∷ 401 ∷ []

abbrev pub nth : {A : Type 0} → A → ℕ → List A → A
nth d n [] = d
nth d n (x ∷ xs) = if n == 0 then x else nth d (n - 1) xs

-- `grpcstatus.Name` and `grpcstatus.HTTPStatus`.
abbrev pub name_of : ℕ → Text
name_of code = nth [] code code_names

abbrev pub http_status : ℕ → ℕ
http_status code = nth 500 code http_statuses

abbrev pub of_class : ℕ → ExpectedStatus
of_class class = record { code = 0; name = []; class = class }

abbrev pub of_code : ℕ → ExpectedStatus
of_code code = record { code = http_status code; name = name_of code; class = 0 }

abbrev pub read_name : Option ℕ → Option ExpectedStatus
read_name none = none
read_name (some code) = some (of_code code)

abbrev pub read_text : Option ℕ → Text → Option ExpectedStatus
read_text (some class) t = some (of_class class)
read_text none t = read_name (code_by_name t)

-- `ParseExpectedStatus`; `none` is its error.
unfoldable pub parse_expected_status : Written → Option ExpectedStatus
parse_expected_status (text t) = read_text (class_of t) t
parse_expected_status (number n) = some (record { code = n; name = []; class = 0 })

-- `MarshalYAML` and `MarshalJSON`.
abbrev pub write_exact : Text → ℕ → Written
write_exact [] code = number code
write_exact (c ∷ name) code = text (c ∷ name)

unfoldable pub marshal : ExpectedStatus → Written
marshal e = if e.class == 0 then write_exact e.name e.code else text (decimal e.class ++ codes "xx")

-- `UnmarshalJSON`, which keeps a name it does not know.
abbrev pub kept : Written → Option ExpectedStatus → ExpectedStatus
kept w (some e) = e
kept (text t) none = record { code = 0; name = t; class = 0 }
kept (number n) none = record { code = n; name = []; class = 0 }

unfoldable pub unmarshal_json : Written → ExpectedStatus
unmarshal_json w = kept w (parse_expected_status w)
