-- ===== src/Sink.antt =====
-- services/sink/cmd/sink: the retry loop, its backoff, the instrumented writer and the error labels,
-- `main` with its environment, and the sink's tracing package; what they come to together.
pub mod Backoff
pub mod Loop
pub mod Instrument
pub mod Wiring
pub mod Whole
pub mod Through
pub mod Env
pub mod Tracing
pub mod Main
