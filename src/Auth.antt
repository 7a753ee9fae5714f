-- ===== src/Auth.antt =====
-- internal/auth: the callers whose own token was refused.
pub mod DirectTokens
