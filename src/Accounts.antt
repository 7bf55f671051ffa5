-- ===== src/Accounts.antt =====
-- Users, their passwords and their tokens: src/providers/auth, src/repositories/ModuleSystem/user
-- and the use cases under src/useCases/ModuleSystem/user.
pub mod World
mod Tests
pub mod Tokens
pub mod Rotation
pub mod Login
pub mod Passwords
pub mod Access
pub mod OAuth
pub mod Premium
pub mod Push
pub mod Update
