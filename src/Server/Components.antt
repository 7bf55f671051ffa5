-- ===== src/Server/Components.antt =====
-- src/server.ts: the order in which the parts of a process are initialised, with
-- src/providers/database/adapters/DatabaseFactory.ts.
use startup_api.Base.{
  String, ◌≡◌, Bool, true, false, not, ◌&&◌, ◌||◌, List, [], ◌∷◌, ◌++◌, str_eq, if◌then◌else◌,
  arith,
}
use startup_api.Base.Exec.{literal, Error, plain, Result, ok, err}
use Prim.Native.String.{◌++◌ as ◌<>◌}

pub data DatabaseAdapter : Type 0 where
  mongoose firebase prisma : DatabaseAdapter

-- The messages are given without the sign before them.
abbrev mongo_missing : Error
mongo_missing = plain (
    literal
      "MongoDB module is not enabled. Please set MODULE_MONGODB=true in your .env and run yarn module:build")

abbrev mongo_enabled : Error
mongo_enabled = plain (
    literal
      "MongoDB module is enabled while you're using FIREBASE adapter. Please set MODULE_MONGODB=false in your .env and run yarn module:build")

-- `mongodb` says whether that module is enabled.
unfoldable pub create_database_adapter : Bool → String → Result DatabaseAdapter
create_database_adapter mongodb name =
    if str_eq name "mongoose"
    then (if not mongodb then err mongo_missing else ok mongoose)
    else if str_eq name "firebase"
    then (if mongodb then err mongo_enabled else ok firebase)
    else if str_eq name "prisma"
    then ok prisma
    else err (plain (literal ("Database adapter " <> (name <> " not found"))))

-- What is initialised, in words of the source.
pub data Component : Type 0 where
  storage sockets broker_handlers broker pub_sub pub_sub_listeners streams streams_listeners :
      Component
  hash_table bull_board cron_jobs routes queues_page one_time multiple_instances : Component

pub record Modules : Type 0 where
  pub mongodb : Bool
  pub postgre_sql : Bool
  pub firebase_db : Bool
  pub redis : Bool
  pub websocket : Bool
  pub rabbit_mq : Bool
  pub redis_pub_sub : Bool
  pub redis_streams : Bool
  pub bull_mq : Bool
  pub microservice : Bool

-- DatabaseAdaptersInfo
unfoldable pub get_current_database_adapter : Modules → Result String
get_current_database_adapter m =
    if m.mongodb
    then ok "mongoose"
    else if m.postgre_sql
    then ok "prisma"
    else if m.firebase_db
    then ok "firebase"
    else err (plain (literal "No database adapter found"))

abbrev create_of : Modules → Result String → Result DatabaseAdapter
create_of m (ok name) = create_database_adapter m.mongodb name
create_of m (err e) = err e

abbrev only : Bool → List Component → List Component
only b cs = if b then cs else []

-- What comes before the routes. `storage` is the database, and Redis if it is enabled.
unfoldable pub before_routes : Modules → List Component
before_routes m =
    storage ∷ only (m.redis && m.websocket) (sockets ∷ [])
    ++ only m.rabbit_mq (broker_handlers ∷ broker ∷ [])
    ++ only m.redis (
        only m.redis_pub_sub (pub_sub ∷ pub_sub_listeners ∷ [])
        ++ only m.redis_streams (streams ∷ streams_listeners ∷ [])
        ++ hash_table ∷ bull_board ∷ [])
    ++ only (not m.microservice) (cron_jobs ∷ [])

unfoldable pub after_routes : Modules → List Component
after_routes m =
    only (m.redis && m.bull_mq) (queues_page ∷ []) ++ one_time ∷ multiple_instances ∷ []

-- What is done: the first one that fails ends it, since nobody handles what is thrown.
unfoldable pub launch : (Component → Bool) → List Component → List Component
launch works [] = []
launch works (c ∷ cs) =
    let rest = launch works cs in elim (works c) [ true ↦ c ∷ rest | false ↦ [] ]

-- `works` says of a component whether its initialisation succeeds; that of the routes does.
unfoldable pub initialize_server_components : (Component → Bool) → Modules → List Component
unfolding create_database_adapter get_current_database_adapter before_routes after_routes launch
initialize_server_components works m = elim (create_of m (get_current_database_adapter m)) [
  | err e ↦ []
  | ok a ↦ launch works (before_routes m ++ routes ∷ after_routes m)
]

abbrev is_routes : Component → Bool
is_routes routes = true
is_routes c = false

-- The process serves the routes.
unfoldable pub serves : List Component → Bool
serves [] = false
serves (c ∷ cs) = if is_routes c then true else serves cs

unfoldable pub all_work : (Component → Bool) → List Component → Bool
all_work works [] = true
all_work works (c ∷ cs) = works c && all_work works cs

no_routes : List Component → Bool
no_routes [] = true
no_routes (c ∷ cs) = not (is_routes c) && no_routes cs

serves-launch :
    (works : Component → Bool) (before after : List Component)
    → works routes ≡ true
    → no_routes before ≡ true
    → serves (launch works (before ++ routes ∷ after)) ≡ all_work works before
unfolding serves launch all_work no_routes
serves-launch works [] after r n = ground (arith, r)
serves-launch works (c ∷ cs) after r n = ground (arith, n, serves-launch works cs after r)

no_routes_before : (m : Modules) → no_routes (before_routes m) ≡ true
unfolding no_routes before_routes
no_routes_before m = ground arith

-- The adapter that is chosen always fits the modules.
adapter_fits :
    (m : Modules)
    → (a : DatabaseAdapter) × (create_of m (get_current_database_adapter m) ≡ (
        if m.mongodb || (m.postgre_sql || m.firebase_db)
        then ok a
        else err (plain (literal "No database adapter found"))))
unfolding create_database_adapter get_current_database_adapter
adapter_fits m =
    (if m.mongodb then mongoose else if m.postgre_sql then prisma else firebase, ground arith)

-- A process serves its routes exactly if a database is enabled and everything that is enabled before
-- the routes can be initialised, up to the cron jobs.
-- The condition is that the routes themselves can be registered.
serves_lem :
    (works : Component → Bool) (m : Modules)
    → works routes ≡ true
    → serves (initialize_server_components works m)
      ≡ ((m.mongodb || (m.postgre_sql || m.firebase_db)) && all_work works (before_routes m))
unfolding initialize_server_components serves
serves_lem works m r =
    let (a, e) = adapter_fits m in
    ground (arith, e, serves-launch works (before_routes m) (after_routes m) r (no_routes_before m))
