-- ===== src/Cortex.antt =====
-- agent/agent_cortex: the durable record of the agent's jobs (store.py), the supervisor that writes
-- it while it passes a provider's stream on (supervisor.py), and the process behind that stream
-- (runtime.py, providers.py).
pub mod Store
pub mod Supervisor
pub mod Runtime
pub mod OpenCode
pub mod Agy
pub mod Ndjson
pub mod Normalized
mod Samples
