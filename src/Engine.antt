-- ===== src/Engine.antt =====
-- The parts of engine/ that decide without sending anything: where a call goes (engine/routing.go),
-- and whether a failed one is sent again (engine/errors.go, engine/retry.go).
pub mod Routing
pub mod Failure
pub mod Retry
pub mod State
pub mod KnownIssue
pub mod Steps
pub mod Cleanup
pub mod Execute
pub mod Run
pub mod Repeat
pub mod Scheduler
pub mod Status
pub mod Pacer
pub mod Selection
pub mod Fallback
mod Tests
mod RunTests
mod RepeatTests
mod SchedulerTests
mod StatusTests
mod PacerTests
mod SelectionTests
mod FallbackTests
