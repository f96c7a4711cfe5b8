-- ===== src/Samples.antt =====
-- Sample tasks, observations and tables, and the theorems applied to them.
mod Inputs
mod FlowRuns
mod StoreRuns
mod MoverRuns
mod AppRuns
mod FinishRuns
mod LandRuns
mod GitRuns
mod LedgerRuns
mod CheckRuns
mod EngineRuns
mod LaunchRuns
mod WaitRuns
