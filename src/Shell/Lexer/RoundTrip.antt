-- ===== src/Shell/Lexer/RoundTrip.antt =====
-- `tokenize` on printed tokens.
