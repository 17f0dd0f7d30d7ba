-- ===== src/Processing.antt =====
-- src/interview_analytics_agent/processing: what is made of a transcript. `Transcript` cleans and
-- joins the texts, `Evidence` looks for the keywords, `Rubric` holds the weights, `Scorecard`,
-- `Decision` and `Report` judge one interview, and `Comparison`, `Calibration` and `Tuning` several.
pub mod Transcript
pub mod Evidence
pub mod Rubric
pub mod Scorecard
pub mod Decision
pub mod Report
pub mod Comparison
pub mod Calibration
pub mod Tuning
pub mod Quality
pub mod Millionths
pub mod Samples
mod Checks
mod TuningChecks
