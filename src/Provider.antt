-- ===== src/Provider.antt =====
-- Package gateway/internal/provider: prices, token estimates and the model names.
pub mod Types
pub mod Pricing
pub mod Tokenizer
pub mod Http
pub mod OpenAi
pub mod Anthropic
pub mod Mock
