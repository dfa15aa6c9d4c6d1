-- ===== src/Json.antt =====
-- src/json.inc: the JSON tokenizer and the readers of its tokens.
pub mod Bytes
pub mod Primitive
pub mod Tokens
pub mod Text
pub mod Readers
pub mod Keys
