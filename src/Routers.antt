-- ===== src/Routers.antt =====
-- The request handlers of the web server that change the heat pump: routers/router-error.ts (Errors), and
-- postMode of routers/router-nibe.ts with isPinOK of server.ts (Mode).
pub mod Errors
pub mod Mode
mod Tests
