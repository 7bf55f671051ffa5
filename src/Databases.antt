-- ===== src/Databases.antt =====
-- The adapters of src/providers/database/repository behind the repositories' interface.
pub mod Firebase
pub mod Memory
pub mod Prisma
pub mod Mongoose
mod Tests
