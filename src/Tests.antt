-- ===== src/Tests.antt =====
-- Tests that run the models of src/ on sample data, and the theorems at concrete inputs.
mod Samples
mod Text
mod Contract
mod Ingestion
mod Windows
mod Alerts
mod Materializer
mod Pipeline
mod PipelineMain
mod Skew
mod Producer
mod OneWindow
mod Customers
mod Records
mod Emitted
mod Published
mod Verify
mod Consumer
mod SkewMain
