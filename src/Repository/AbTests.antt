-- ===== src/Repository/AbTests.antt =====
-- The A/B tests: abTests/ABTestController.ts over src/repositories/ModuleSystem/user/ABRepository.ts.
use startup_api.Base.{ℕ, String, ◌≡◌, Bool, Option, none, some, List, [], arith}
use startup_api.Base.Value.{num, Fields, get, put, assign}
use startup_api.Base.Exec.{ok}
use startup_api.Repository.Database.{Adapter, StoresUpdates}
use startup_api.Repository
use startup_api.Repository.{Action, populated, rewrap}

module _ ⦃A : Adapter⦄ where
  open A use {Db}

  -- Each route answers with the status 200 and what the repository gives; a body is one that the
  -- validation of the request has let through.
  unfoldable pub create : ℕ → Fields → Action Fields
  create now ab_test = Repository.create now [] ab_test

  unfoldable pub read : String → Action (Option Fields)
  read id = Repository.find_by_id id none

  unfoldable pub read_all : Fields → Action (List Fields)
  read_all query = Repository.find_all query none

  unfoldable pub update : ℕ → String → Fields → Action (Option Fields)
  update now id ab_test = Repository.update_by_id now id ab_test

  unfoldable pub delete : String → Action Bool
  delete id = Repository.delete id

  -- After a change of a test that exists, reading it gives the old record with the fields of the change
  -- and the time of it put over it.
  -- What is assumed is that the adapter stores updates, and that the change does not name `_id`.
  read-update :
      (updates : StoresUpdates A) (now : ℕ) (id : String) (change r : Fields) (d : Db)
      → get "_id" (put "updatedAt" (num now) change) ≡ none
      → A.find_by_id id none d ≡ ok (some r)
      → (read id (update now id change d).1).0
        ≡ ok (some (populated (assign r (put "updatedAt" (num now) change))))
  unfolding read update Repository.find_by_id Repository.update_by_id rewrap
  read-update updates now id change r d n f =
      let (r', d', made, found) = updates id (put "updatedAt" (num now) change) r d n f in
      ground (arith, made, found)
