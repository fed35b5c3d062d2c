-- ===== src/Model/Openai.antt =====
-- The provider of OpenAI's service: model/openai/openai.go. The requests, completions and chunks
-- are here by the fields that the code sets or reads; the service and its client are parameters.
pub mod Content
pub mod Convert
pub mod Reply
pub mod Chunks
pub mod Texts
pub mod Calls
pub mod Indices
pub mod Delivery
pub mod Sent
mod Tests
