-- ===== src/Matching.antt =====
-- vocab/validators.py: lexical tokens, and where a word, a chunk or a frame matches a text.
-- A text is the list of its code points; a token is one too.
pub mod Tokens
pub mod Spans
pub mod Units
