-- ===== src/Broker/Recovery.antt =====
-- What comes of a lost connection when the broker answers again in time.
use startup_api.Base.{
  ℕ, zero, suc, ◌+◌, ◌-◌, ◌*◌, ◌≤◌, ◌<◌, ◌≡◌, inl, inr, refl, Bool, true, false, some, List, [],
  ◌∷◌, ◌++◌, arith,
}
use mathlib.Core.List.{append-nil, append_assoc}
use startup_api.Base.Exec.{Result, ok}
use startup_api.Broker.{
  ready_channel, start_consuming, open_channel, is_channel_valid, Consumer, Rabbit, delay,
  retry_delay, max_retries, connect_retries, retry_operation, cleanup, ask, setup_consumer,
  reestablish, establish, connect, reconnect, handle_reconnection, connection_lost,
}
use startup_api.Broker.Failure.{
  failed, le-or-lt, failed-Alike, establish_fails, connect_fails, down,
}

-- The connection is up, with each of the consumers consuming.
record Up (consumers : List Consumer) (s : Rabbit) : Type 0 where
  pub connected : s.connection ≡ true
  pub valid : is_channel_valid s.publish_channel ≡ true
  pub consuming : s.consuming ≡ consumers
  pub kept : s.consumers ≡ consumers

-- A step that succeeds, from `s` to `s'`, with the consumers that consume after it.
pub record Succeeds (s : Rabbit) (consuming : List Consumer) (r : Result {0} Unit) (s' : Rabbit)
    : Type 0 where
  pub result : r ≡ ok tt
  pub connected : s'.connection ≡ true
  pub publishing : s'.publish_channel ≡ s.publish_channel
  pub kept : s'.consumers ≡ s.consumers
  pub consumes : s'.consuming ≡ consuming
  pub quiet : s'.commands ≡ s.commands
  pub later : s.asked ≤ s'.asked

module _ (answers : ℕ → Bool) where
  ready-Succeeds :
      (s : Rabbit)
      → s.connection ≡ true
      → ((i : ℕ) → s.asked ≤ i → answers i ≡ true)
      → let (r, s') = ready_channel true answers s in Succeeds s s.consuming r s'
  unfolding ready_channel ask
  ready-Succeeds s c h = ground (arith, c, h s.asked (omega arith))

  start-Succeeds :
      (consumer : Consumer) (s : Rabbit)
      → s.connection ≡ true
      → ((i : ℕ) → s.asked ≤ i → answers i ≡ true)
      → let (r, s') = start_consuming true answers consumer s in
        Succeeds s (s.consuming ++ consumer ∷ []) r s'
  unfolding start_consuming ask
  start-Succeeds consumer s c h = ground (
    arith,
    c,
    h s.asked (omega arith),
    h (1 + s.asked) (omega arith),
    h (2 + s.asked) (omega arith),
    h (3 + s.asked) (omega arith),
  )

  pub setup-Succeeds :
      (consumer : Consumer) (s : Rabbit)
      → s.connection ≡ true
      → ((i : ℕ) → s.asked ≤ i → answers i ≡ true)
      → let (r, s') = setup_consumer true answers consumer s in
        Succeeds s (s.consuming ++ consumer ∷ []) r s'
  unfolding setup_consumer
  setup-Succeeds consumer s c h =
      let a = ready-Succeeds s c h in
      let b =
        start-Succeeds consumer (ready_channel true answers s).1 a.connected
          (λ i l. h i (omega (arith, l, a.later))) in
      ground (
        arith, a.result, a.publishing, a.kept, a.consumes, a.later, a.quiet, b.quiet, b.result,
        b.connected, b.publishing, b.kept, b.consumes, b.later,
      )

  reestablish-Succeeds :
      (consumers : List Consumer) (s : Rabbit)
      → s.connection ≡ true
      → ((i : ℕ) → s.asked ≤ i → answers i ≡ true)
      → let (r, s') = reestablish true answers consumers s in
        Succeeds s (s.consuming ++ consumers) r s'
  unfolding reestablish
  reestablish-Succeeds [] s c h = ground (arith, c, append-nil s.consuming)
  reestablish-Succeeds (consumer ∷ rest) s c h =
      let a = setup-Succeeds consumer s c h in
      let b =
        reestablish-Succeeds rest (setup_consumer true answers consumer s).1 a.connected
          (λ i l. h i (omega (arith, l, a.later))) in
      ground (
        arith,
        a.result,
        a.publishing,
        a.kept,
        a.consumes,
        a.later,
        a.quiet,
        b.quiet,
        b.result,
        b.connected,
        b.publishing,
        b.kept,
        b.consumes,
        b.later,
        append_assoc s.consuming (consumer ∷ []) rest,
      )

  establish_succeeds :
      (s : Rabbit)
      → s.consuming ≡ []
      → ((i : ℕ) → s.asked ≤ i → answers i ≡ true)
      → let (r, s') = establish true answers s in (r ≡ ok tt) × Up s.consumers s'
  unfolding establish ask is_channel_valid
  establish_succeeds s n h =
      let s0 : Rabbit = record s {
        connection = true;
        publish_channel = some open_channel;
        asked = 2 + s.asked;
      } in
      let b = reestablish-Succeeds s.consumers s0 refl (λ i l. h i (omega (arith, l))) in
      ground (
        arith,
        n,
        h s.asked (omega arith),
        h (1 + s.asked) (omega arith),
        b.result,
        b.connected,
        b.publishing,
        b.kept,
        b.consumes,
      )

  -- Failed attempts before one that succeeds.
  retry_succeeds :
      (n j : ℕ) (s : Rabbit)
      → j < n
      → s.consuming ≡ []
      → ((i : ℕ) → s.asked ≤ i → i < s.asked + j → answers i ≡ false)
      → ((i : ℕ) → s.asked + j ≤ i → answers i ≡ true)
      → let (r, s') = retry_operation n retry_delay (establish true answers) s in
        (r ≡ ok tt) × Up s.consumers s'
  unfolding retry_operation
  retry_succeeds zero j s l n f t = ground (arith, l)
  retry_succeeds (suc m) zero s l n f t =
      let (a, b) = establish_succeeds s n (λ i g. t i (omega (arith, g))) in
      ground (arith, a, b.connected, b.valid, b.consuming, b.kept)
  retry_succeeds (suc m) (suc k) s l n f t =
      let (e, g) = establish_fails answers s (f s.asked (omega arith) (omega arith)) in
      let (a, b) =
        retry_succeeds m k (delay retry_delay (record s { asked = suc s.asked })) (omega (arith, l))
          n (λ i x y. f i (omega (arith, x)) (omega (arith, y))) (λ i x. t i (omega (arith, x))) in
      ground (arith, g, a, b.connected, b.valid, b.consuming, b.kept)

  connect_succeeds :
      (j : ℕ) (s : Rabbit)
      → j < 5
      → s.connection ≡ false
      → s.consuming ≡ []
      → ((i : ℕ) → s.asked ≤ i → i < s.asked + j → answers i ≡ false)
      → ((i : ℕ) → s.asked + j ≤ i → answers i ≡ true)
      → let (r, s') = connect true answers s in (r ≡ ok tt) × Up s.consumers s'
  unfolding connect
  connect_succeeds j s l c n f t =
      let (a, b) = retry_succeeds 5 j s l n f t in
      ground (arith, c, a, b.connected, b.valid, b.consuming, b.kept)

  reconnect_succeeds :
      (n j : ℕ) (s : Rabbit)
      → j < n * 5
      → s.connection ≡ false
      → s.consuming ≡ []
      → ((i : ℕ) → s.asked ≤ i → i < s.asked + j → answers i ≡ false)
      → ((i : ℕ) → s.asked + j ≤ i → answers i ≡ true)
      → let s' = reconnect true answers n s in
        Up s.consumers s' × (s'.current_retries ≡ 0) × (s'.reconnecting ≡ false)
  unfolding reconnect
  reconnect_succeeds zero j s l c n f t = ground (arith, l)
  reconnect_succeeds (suc m) j s l c n f t =
      let again : (5 ≤ j) → _ = λ g.
        let s1 = failed connect_retries s in
        let (alike, asked) = failed-Alike connect_retries s in
        reconnect_succeeds m (j - 5)
          (delay retry_delay (record s1 { current_retries = suc s1.current_retries }))
          (omega (arith, g, l)) (ground (arith, alike, c)) (ground (arith, alike, n))
          (λ i x y. f i (omega (arith, x, asked)) (omega (arith, y, g, asked)))
          (λ i x. t i (omega (arith, x, g, asked))) in
      elim (le-or-lt 5 j) [
        | inl g ↦ ground (
          arith,
          connect_fails answers s c (λ i x y. f i x (omega (arith, y, g))),
          failed-Alike connect_retries s,
          (again g).0.connected,
          (again g).0.valid,
          (again g).0.consuming,
          (again g).0.kept,
          (again g).1,
        )
        | inr g ↦
            let (a, b) = connect_succeeds j s g c n f t in
            ground (arith, a, b.connected, b.valid, b.consuming, b.kept)
      ]

-- The module is enabled, the connection is lost while no reconnection is under way, and the broker refuses the next `j`
-- calls and takes all the later ones. If the rounds that are left are more than a fifth of `j`, the
-- connection comes back: the publishing channel is valid, all the registered consumers consume
-- again, in the order of their registration, and the count of the rounds is zero.
pub recovers :
    (answers : ℕ → Bool) (j : ℕ) (s : Rabbit)
    → s.reconnecting ≡ false
    → j < (max_retries - s.current_retries) * 5
    → ((i : ℕ) → s.asked ≤ i → i < s.asked + j → answers i ≡ false)
    → ((i : ℕ) → s.asked + j ≤ i → answers i ≡ true)
    → let s' = connection_lost true answers s in
      (s'.connection ≡ true)
      × (is_channel_valid s'.publish_channel ≡ true)
      × (s'.consuming ≡ s.consumers)
      × (s'.current_retries ≡ 0)
      × (s'.reconnecting ≡ false)
unfolding connection_lost handle_reconnection cleanup
recovers answers j s r l f t =
    let s0 : Rabbit = down s in
    let (up, n, d) =
      reconnect_succeeds answers (max_retries - s.current_retries) j s0 l refl refl f t in
    ground (arith, r, up.connected, up.valid, up.consuming, n, d)
