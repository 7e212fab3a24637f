-- ===== src/Tests.antt =====
-- Runs on concrete data, the parameters' instances, and the theorems at inputs that meet their
-- hypotheses.
mod Memory
mod WriterTests
mod LoopTests
mod TransformerTests
mod GroupTests
mod ToolTests
mod WholeTests
mod StartTests
mod BridgeTests
mod FlakyTests
