-- ===== src/Handlers.antt =====
-- The request handlers of app/main.py, on the panel of Panel.
pub mod NodeSync
pub mod NodeUsage
pub mod Users
pub mod Settings
