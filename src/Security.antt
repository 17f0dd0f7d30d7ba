-- ===== src/Security.antt =====
-- Who may call the gateway: common/security.py, apps/api_gateway/deps.py, ws.py and tenancy.py.
pub mod Auth
pub mod Gate
pub mod Tenancy
mod Checks
