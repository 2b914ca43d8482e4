-- ===== src/Oauth.antt =====
-- services/oauth/_validator.py: what oauthlib asks of clients, codes and tokens.
pub mod Rows
pub mod Validator
pub mod Client
pub mod Code
pub mod RefreshToken
pub mod Revoked
pub mod Bearer
pub mod Unlimited
