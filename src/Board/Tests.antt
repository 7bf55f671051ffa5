-- ===== src/Board/Tests.antt =====
-- Examples of refreshes.
use startup_api.Base.{◌≡◌, refl, true, false, [], ◌∷◌, includes}
use startup_api.Base.Value.{num}
use startup_api.Base.Exec.{ok, err}
use startup_api.HashTable.{no_pool}
use startup_api.Redis.Memory.{Server, memory, memory_start, hset}
use startup_api.Board.{Board, Round, timer}
use startup_api.Board.Refresh.{refresh_tracks}

abbrev board : Board Server
board = record {
  table = record { unit_test = false; reachable = true; connected = true; db = memory_start };
  monitored = "old" ∷ [];
  shown = "old" ∷ [];
  borrowed = 1;
  is_refreshing = false;
  scheduled = true;
}

-- Another process makes a queue.
abbrev round : Round Server
round = record {
  others = hset "queue-activity" "mail" (num 5);
  client = ok tt;
  release = ok tt;
  makes = λ q. true;
  boards = λ q. true;
}

abbrev bad_round : Round Server
bad_round = record round { client = err no_pool }

refresh_tracks_example :
    let b' = timer (λ n. "") (λ v. 0) round board in
    let names = memory.hkeys "queue-activity" (round.others memory_start) in
    (includes "mail" b'.shown ≡ includes "mail" names)
    × (includes "mail" b'.monitored ≡ includes "mail" names)
    × (b'.borrowed ≡ 1)
    × (b'.scheduled ≡ true)
    × (b'.is_refreshing ≡ false)
refresh_tracks_example =
    refresh_tracks (λ n. "") (λ v. 0) round "mail" board refl refl refl refl refl
      (λ q. (refl, refl)) (λ q. refl)
