-- ===== src/Llama.antt =====
-- The adapters to llama.cpp: src/adapters/llama. Its functions are parameters, by what they return.
pub mod Template
pub mod Tokens
pub mod Generate
mod Tests
