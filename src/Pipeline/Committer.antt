-- ===== src/Pipeline/Committer.antt =====
-- pipeline/committer.py with `LogMonitor.ack_line` of logs/log_monitor.py. The monitors share one
-- offset tracker (logs/multi_log_monitor.py), so the tracker stands in the state beside them. The
-- sink is the constructor's argument; `clock n` is the n-th reading of the monotonic clock.
pub mod Defs
pub mod Once
pub mod Reread
pub mod Ack
mod Tests
