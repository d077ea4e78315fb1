-- ===== src/Engine.antt =====
-- internal/engine: the configuration and the guardrails that read it.
pub mod Config
pub mod Values
pub mod Guardrail
mod Tests
