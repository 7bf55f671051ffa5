-- ===== src/Poller.antt =====
-- src/providers/poller/ResultsPoller.ts: a result is stored under a key for another process, which
-- asks for it again and again. What other clients do to the server before each question is the
-- argument `others`, by the number of questions that are left after it.
pub mod Arrival
mod Tests
use Prim.Native.String.{◌++◌}
use startup_api.Base.{ℕ, zero, suc, String, Bool, true, false, Option, none, some, or_else}
use startup_api.Base.Value.{Value, bool}
use startup_api.Base.Exec.{Exec, ok, err, pure, gets, finally_do, ◌>>=◌, ◌>>◌}
use startup_api.Redis.{Backend}
use startup_api.HashTable
use startup_api.HashTable.{Table, Action, change}

abbrev pub parent_namespace : String
parent_namespace = "results-poller"

abbrev pub max_retries : ℕ
max_retries = 300

abbrev pub full_key : String → String → String
full_key namespace key = parent_namespace ++ ":" ++ namespace ++ ":" ++ key

module _ ⦃B : Backend⦄ where
  open B use {Db}

  -- An undefined result is stored as `false`.
  unfoldable pub prepare_result_to_be_polled : String → String → Option Value → Action Unit
  unfolding HashTable.set
  prepare_result_to_be_polled namespace key result =
      HashTable.set parent_namespace (full_key namespace key) (or_else result (bool false))

  -- The `while` loop, by the retries that are left.
  unfoldable pub poll : (ℕ → Db → Db) → String → ℕ → Action Value
  unfolding HashTable.get
  poll others key zero = pure (bool false)
  poll others key (suc n) = do
    change (others n)
    result ← HashTable.get parent_namespace key
    elim result [ some v ↦ pure v | none ↦ poll others key n ]

  unfoldable pub poll_results : (ℕ → Db → Db) → String → String → Action Value
  unfolding HashTable.delete
  poll_results others namespace key =
      finally_do (poll others (full_key namespace key) max_retries)
        (HashTable.delete parent_namespace (full_key namespace key))

  unfoldable pub clear_all : Action Unit
  unfolding HashTable.delete_all
  clear_all = HashTable.delete_all parent_namespace
