-- ===== src/Engine/KnownIssue.antt =====
-- Known issues: plan/known_issue.go and engine/known_issue.go. A date is a number of days; the zero
-- date is `none`. `today` is the calendar day of the clock.
use aat.Base.{
  ℕ, List, [], ◌∷◌, ◌++◌, Bool, true, false, not, if◌then◌else◌, ltb, Option, none, some,
}
use aat.Base.Text.{Text}
use aat.Graph.Names.{Name}

-- `Outcome` of engine/result.go.
pub data RunOutcome : Type 0 where
  passed failed errored aborted stopped : RunOutcome

abbrev pub Date : Type 0
Date = Option ℕ

-- `Date.Expired`.
abbrev pub expired : Date → ℕ → Bool
expired none today = false
expired (some day) today = ltb day today

pub record KnownIssue : Type 0 where
  pub until : Date
  pub reason : Text
  pub url : Text

abbrev pub active : KnownIssue → ℕ → Bool
active ki today = not (expired ki.until today)

-- `Plan.KnownIssueFor`: the step's own entry, or else the plan's.
abbrev pub known_issue_for : Option KnownIssue → Option KnownIssue → Option KnownIssue
known_issue_for of_plan none = of_plan
known_issue_for of_plan (some ki) = some ki

pub data Standing : Type 0 where
  applied lapsed resolved : Standing

pub record KnownIssueResult : Type 0 where
  pub issue : KnownIssue
  pub standing : Standing

pub record Log : Type 0 where
  pub raw : RunOutcome
  pub applied_to : List (Name × KnownIssue)
  pub resolved_on : List (Name × KnownIssue)
  pub early : Bool

abbrev pub new_known_issue_log : Log
new_known_issue_log = record { raw = passed; applied_to = []; resolved_on = []; early = false }

abbrev pub ended_early : Log → Log
ended_early l = record l { early = true }

abbrev pub is_passed : RunOutcome → Bool
is_passed passed = true
is_passed _ = false

-- `gating`; an aborted run passes no log.
abbrev pub gating : Option Log → RunOutcome → RunOutcome
gating none reported = reported
gating (some l) reported = if is_passed reported then l.raw else reported

abbrev pub suppress : Name → KnownIssue → Log → Log
suppress id ki l = record l { raw = failed; applied_to = l.applied_to ++ (id, ki) ∷ [] }

abbrev pub resolve_issue : Name → KnownIssue → Log → Log
resolve_issue id ki l = record l { resolved_on = l.resolved_on ++ (id, ki) ∷ [] }
