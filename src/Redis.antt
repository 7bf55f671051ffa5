-- ===== src/Redis.antt =====
-- What the program relies on in the Redis server and in JavaScript's JSON: the commands on hashes
-- that src/providers/database/InMemoryHashTable.ts sends, with their documented results, and that
-- JSON.parse undoes JSON.stringify.
pub mod Memory
pub mod Api
unfoldable pub use Api.*
