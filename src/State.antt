-- ===== src/State.antt =====
-- crates/rgit-core/src/state.rs: a slot for a Git operation, as a handler asks for one.
pub mod Tracker
use rgit.Common.{if◌then◌else◌}
use rgit.Error.{busy}
use rgit.Result.{ok, err}
use rgit.Store.{M}

abbrev pub begin_git_operation : M (Unit {0})
begin_git_operation w = (if w.git_busy then err busy else ok tt, w)
