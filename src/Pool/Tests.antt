-- ===== src/Pool/Tests.antt =====
-- Pools on concrete answers.
use startup_api.Base.{◌≡◌, refl, true, false, none, [], ◌∷◌}
use startup_api.Base.Exec.{ok}
use startup_api.Pool.{throws, unnamed, named, Redis, get_pool_client, connect}
use startup_api.Base.Texts.{includes_char}
use startup_api.Pool.Listing.{
  get_connected_client_list_names, get_connected_client_count, print_total_connected_clients,
}
use startup_api.Pool.Listing.Names.{Client, line, spaced, printed, IsClient, clients_read}
use startup_api.Pool.Clients.{give_back, no_client_leaks, first_failure_stays}

abbrev idle : Redis
idle = record {
  enabled = true;
  made = false;
  borrowed = [];
  asked = 0;
  main = none;
  client = none;
  retry_delay = 1000;
  waits = [];
}

abbrev in_use : Redis
in_use = record idle { made = true; borrowed = 1 ∷ 2 ∷ [] }

no_client_leaks_example :
    (give_back (λ n. unnamed 3) (get_pool_client (λ n. unnamed 3) in_use)).borrowed ≡ 1 ∷ 2 ∷ []
no_client_leaks_example = no_client_leaks (λ n. unnamed 3) in_use refl

first_failure_stays_example :
    let (r, s') = connect (λ n. throws) 5 idle in
    (r ≡ ok tt)
    × (s'.waits ≡ 1000 ∷ [])
    × (s'.client ≡ none)
    × (connect (λ n. named 1) 5 s' ≡ (ok tt, s'))
first_failure_stays_example =
    first_failure_stays (λ n. throws) (λ n. named 1) 4 5 idle tt refl refl refl refl

abbrev worker : Client
worker = record { before = "id=10" ∷ "addr=a" ∷ []; name = "mail"; behind = "age=5" }

abbrev unnamed_client : Client
unnamed_client = record { before = "id=2" ∷ []; name = ""; behind = "age=7" }

worker-IsClient : IsClient worker
unfolding includes_char line spaced
worker-IsClient = (((refl, refl), ((refl, refl), tt)), refl, refl)

unnamed-IsClient : IsClient unnamed_client
unfolding includes_char line spaced
unnamed-IsClient = (((refl, refl), tt), refl, refl)

clients_read_example :
    (get_connected_client_list_names (printed (worker ∷ unnamed_client ∷ [])) ≡ "mail" ∷ [])
    × (get_connected_client_count (printed (worker ∷ unnamed_client ∷ [])) ≡ 2)
    × (print_total_connected_clients false (ok (printed (worker ∷ unnamed_client ∷ []))) []
        ≡ (0, ("Count/Server/RedisClientCount", 2) ∷ []))
clients_read_example =
    clients_read false [] (worker ∷ unnamed_client ∷ []) (worker-IsClient, (unnamed-IsClient, tt))
