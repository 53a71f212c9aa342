-- ===== src/Tests.antt =====
-- Runs of the models on concrete inputs.
mod Plain
mod PupLane
mod PupRuns
mod PupMerge
mod PupMark
mod SortedSlots
mod BufRuns
mod GateRuns
mod RequireRuns
mod NetRuns
mod StartRuns
mod HeapRuns
mod PolRuns
mod LogRuns
