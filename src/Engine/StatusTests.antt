-- ===== src/Engine/StatusTests.antt =====
-- Expected statuses as plans and archives write them (config/expected_status.go).
use aat.Base.{◌≡◌, refl, some}
use aat.Base.Text.{codes}
use aat.Engine.Failure.{code_by_name, fold_name}
use aat.Engine.Status.{text, class_of, of_code, parse_expected_status, marshal, unmarshal_json}
use aat.Engine.Status.RoundTrip.{parse_expected_status-marshal, unmarshal_json-marshal}

not_found_test : parse_expected_status (text (codes "not-found")) ≡ some (of_code 5)
unfolding parse_expected_status class_of code_by_name fold_name
not_found_test = refl

parse_expected_status-marshal_example :
    parse_expected_status (marshal (of_code 5)) ≡ some (of_code 5)
parse_expected_status-marshal_example =
    parse_expected_status-marshal (text (codes "not-found")) (of_code 5) not_found_test

unmarshal_json-marshal_example :
    unmarshal_json (marshal (unmarshal_json (text (codes "[REDACTED]"))))
    ≡ unmarshal_json (text (codes "[REDACTED]"))
unmarshal_json-marshal_example = unmarshal_json-marshal (text (codes "[REDACTED]"))
