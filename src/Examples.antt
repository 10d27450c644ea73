-- ===== src/Examples.antt =====
-- Concrete runs: the theorems at inputs that meet their hypotheses.
mod LeaseRuns
mod PassRuns
mod SplitRuns
mod WireRuns
mod SpecRuns
mod SessionRuns
mod JournalRuns
mod PurgeRuns
