-- ===== src/Streams/Groups.antt =====
-- The consumer groups of src/providers/redis/RedisStreams.ts. The names of the channels are those of the
-- enumeration, and the groups those of the server.
use Prim.Native.String.{◌++◌}
use startup_api.Base.{
  String, ◌≡◌, refl, true, Option, none, some, List, [], ◌∷◌, includes, if◌then◌else◌, arith,
  eq_refl, All,
}
use startup_api.Base.Exec.{Error, ok, err, Exec, pure, ◌>>◌}
use startup_api.Redis.{entry_of}
use startup_api.Base.{is_some}

pub record Groups : Type 0 where
  pub groups : List String
  pub names : List (String × String)

unfoldable pub get_consumer_group_name : String → String
get_consumer_group_name channel = channel ++ "_consumer_group"

unfoldable pub get_consumer_name : String → String
get_consumer_name channel = channel ++ "_consumer"

-- `fails` says of a channel which error the server answers to XGROUP CREATE, if it is not that the
-- group exists, BUSYGROUP, which is let pass. `initializeConsumerGroups` has the statements of
-- `createConsumerGroupIfNotExists` in its loop.
module _ (fails : String → Option Error) where
  unfoldable pub create_consumer_group_if_not_exists : String → Exec Groups Unit
  unfolding get_consumer_group_name
  create_consumer_group_if_not_exists channel s = elim (fails channel) [
    | some e ↦ (err e, s)
    | none ↦ (
      ok tt,
      if includes (get_consumer_group_name channel) s.groups
          then s
          else record s { groups = get_consumer_group_name channel ∷ s.groups },
    )
  ]

  unfoldable pub ensure_name : String → Exec Groups Unit
  unfolding get_consumer_name
  ensure_name channel s =
      if is_some (entry_of channel s.names)
      then (ok tt, s)
      else (ok tt, record s { names = (channel, get_consumer_name channel) ∷ s.names })

  -- The loop over the channels.
  unfoldable pub initialize_consumer_groups : List String → Exec Groups Unit
  unfolding create_consumer_group_if_not_exists ensure_name
  initialize_consumer_groups [] = pure tt
  initialize_consumer_groups (channel ∷ rest) = do
    create_consumer_group_if_not_exists channel
    ensure_name channel
    initialize_consumer_groups rest

  abbrev pub Ready : Groups → String → Type 0
  Ready s channel =
      (includes (get_consumer_group_name channel) s.groups ≡ true)
      × (is_some (entry_of channel s.names) ≡ true)

  abbrev with_channel : String → Groups → Groups
  with_channel channel s = record {
    groups =
        if includes (get_consumer_group_name channel) s.groups
        then s.groups
        else get_consumer_group_name channel ∷ s.groups;
    names =
        if is_some (entry_of channel s.names)
        then s.names
        else (channel, get_consumer_name channel) ∷ s.names;
  }

  one_step :
      (channel : String) (rest : List String) (s : Groups)
      → fails channel ≡ none
      → initialize_consumer_groups (channel ∷ rest) s
        ≡ initialize_consumer_groups rest (with_channel channel s)
  unfolding initialize_consumer_groups
  one_step channel rest s f = ground (arith, f)

  final : List String → Groups → Groups
  final [] s = s
  final (channel ∷ rest) s = final rest (with_channel channel s)

  initialize_lem :
      (channels : List String) (s : Groups)
      → All (λ c. fails c ≡ none) channels
      → initialize_consumer_groups channels s ≡ (ok tt, final channels s)
  unfolding initialize_consumer_groups final
  initialize_lem [] s f = refl
  initialize_lem (c ∷ rest) s (f, fs) = ground (arith, f, initialize_lem rest (with_channel c s) fs)

  with_channel-Ready : (c : String) (s : Groups) → Ready (with_channel c s) c
  with_channel-Ready c s =
      (ground (arith, eq_refl (get_consumer_group_name c)), ground (arith, eq_refl c))

  Ready-with_channel : (c d : String) (s : Groups) → Ready s d → Ready (with_channel c s) d
  Ready-with_channel c d s (g, n) = (ground (arith, g), ground (arith, n))

  final-Ready :
      (channels : List String) (d : String) (s : Groups) → Ready s d → Ready (final channels s) d
  unfolding final
  final-Ready [] d s r = r
  final-Ready (c ∷ rest) d s r = final-Ready rest d (with_channel c s) (Ready-with_channel c d s r)

  All-Ready : (channels : List String) (s : Groups) → All (Ready (final channels s)) channels
  unfolding final
  All-Ready [] s = tt
  All-Ready (c ∷ rest) s = (
    final-Ready rest c (with_channel c s) (with_channel-Ready c s),
    All-Ready rest (with_channel c s),
  )

  nothing_to_do :
      (channels : List String) (s : Groups)
      → All (λ c. fails c ≡ none) channels
      → All (Ready s) channels
      → initialize_consumer_groups channels s ≡ (ok tt, s)
  unfolding initialize_consumer_groups
  nothing_to_do [] s f r = refl
  nothing_to_do (c ∷ rest) s (f, fs) ((g, n), rs) =
      ground (arith, f, g, n, nothing_to_do rest s fs rs)

  -- When the server answers every command or says that the group exists: each channel has its group and
  -- a name for its consumer afterwards, and doing it again, as another process does, changes nothing.
  initialize_twice :
      (channels : List String) (s : Groups)
      → All (λ c. fails c ≡ none) channels
      → let (r, s') = initialize_consumer_groups channels s in
        (r ≡ ok tt)
        × All (Ready s') channels
        × (initialize_consumer_groups channels s' ≡ (ok tt, s'))
  initialize_twice channels s f = rw (initialize_lem channels s f) (
    refl,
    All-Ready channels s,
    nothing_to_do channels (final channels s) f (All-Ready channels s),
  )
