-- ===== src/Gateway.antt =====
-- The money path of the LLM gateway: pricing.ts, usage.ts, billing.ts and the orchestration of
-- service.ts, all of apps/llm-gateway/src.
pub mod Json
pub mod Pricing
pub mod Bounds
pub mod Prices
pub mod Usage
pub mod Chunks
pub mod Client
pub mod Turn
pub mod Admission
pub mod Closing
mod Tests
