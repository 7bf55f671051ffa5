-- ===== src/Broker/Failure.antt =====
-- What comes of a lost connection when the broker does not answer.
use startup_api.Base.{
  ℕ, zero, suc, ◌+◌, ◌-◌, ◌≤◌, ◌<◌, ◌≡◌, ◌⊎◌, refl, Bool, true, false, Option, none, some, [],
  arith,
}
use startup_api.Base.Exec.{literal, Error, plain, err}
use startup_api.Broker.{
  Channel, cut, Rabbit, delay, retry_delay, max_retries, connect_retries, retry_operation, cleanup,
  ask, establish, connect, reconnect, handle_reconnection, connection_lost,
}

pub le-or-lt : (a b : ℕ) → (a ≤ b) ⊎ (b < a)
le-or-lt a b = omega arith

-- What failed attempts to connect leave behind: calls and waits.
unfoldable pub failed : ℕ → Rabbit → Rabbit
failed zero s = s
failed (suc n) s = failed n (delay retry_delay (record s { asked = suc s.asked }))

-- What rounds of them leave behind.
gave_up : ℕ → Rabbit → Rabbit
unfolding failed
gave_up zero s = record s { reconnecting = false }
gave_up (suc n) s =
    let s' = failed connect_retries s in
    gave_up n (delay retry_delay (record s' { current_retries = suc s'.current_retries }))

abbrev pub exhausted : Error
exhausted = plain (literal "Operation failed after multiple retries")

-- The state but for calls and waits.
abbrev pub Alike : Rabbit → Rabbit → Type 0
Alike s s' =
    (s'.connection ≡ s.connection)
    × (s'.publish_channel ≡ s.publish_channel)
    × (s'.consumers ≡ s.consumers)
    × (s'.consuming ≡ s.consuming)
    × (s'.current_retries ≡ s.current_retries)
    × (s'.consumer_channel ≡ s.consumer_channel)

pub failed-Alike : (n : ℕ) (s : Rabbit) → Alike s (failed n s) × ((failed n s).asked ≡ s.asked + n)
unfolding failed
failed-Alike zero s = ((refl, refl, refl, refl, refl, refl), omega arith)
failed-Alike (suc n) s =
    ground (arith, failed-Alike n (delay retry_delay (record s { asked = suc s.asked })))

module _ (answers : ℕ → Bool) where
  pub establish_fails :
      (s : Rabbit)
      → answers s.asked ≡ false
      → (e : Error) × (establish true answers s ≡ (err e, record s { asked = suc s.asked }))
  unfolding establish ask
  establish_fails s h = (plain (literal "Broker call failed"), ground (arith, h))

  retry_fails :
      (n : ℕ) (s : Rabbit)
      → ((i : ℕ) → s.asked ≤ i → i < s.asked + n → answers i ≡ false)
      → retry_operation n retry_delay (establish true answers) s ≡ (err exhausted, failed n s)
  unfolding retry_operation failed
  retry_fails zero s h = refl
  retry_fails (suc n) s h =
      let (e, f) = establish_fails s (h s.asked (omega arith) (omega arith)) in
      ground (
        arith,
        f,
        retry_fails n (delay retry_delay (record s { asked = suc s.asked }))
            (λ i a b. h i (omega (arith, a)) (omega (arith, b))),
      )

  pub connect_fails :
      (s : Rabbit)
      → s.connection ≡ false
      → ((i : ℕ) → s.asked ≤ i → i < s.asked + 5 → answers i ≡ false)
      → connect true answers s ≡ (err exhausted, failed connect_retries s)
  unfolding connect
  connect_fails s c h = ground (arith, c, retry_fails 5 s h)

  reconnect_fails :
      (n : ℕ) (s : Rabbit)
      → s.connection ≡ false
      → ((i : ℕ) → s.asked ≤ i → answers i ≡ false)
      → reconnect true answers n s ≡ gave_up n s
  unfolding reconnect gave_up
  reconnect_fails zero s c h = refl
  reconnect_fails (suc n) s c h =
      let s' = failed connect_retries s in
      let (alike, asked) = failed-Alike connect_retries s in
      ground (
        arith,
        connect_fails s c (λ i a b. h i a),
        reconnect_fails n
            (delay retry_delay (record s' { current_retries = suc s'.current_retries }))
            (ground (arith, alike, c)) (λ i a. h i (omega (arith, a, asked))),
      )

gave_up-Alike :
    (n : ℕ) (s : Rabbit)
    → let s' = gave_up n s in
      ((s'.connection ≡ s.connection) × (s'.publish_channel ≡ s.publish_channel))
      × ((s'.consuming ≡ s.consuming) × (s'.current_retries ≡ s.current_retries + n))
      × ((s'.reconnecting ≡ false) × (s'.consumer_channel ≡ s.consumer_channel))
unfolding gave_up
gave_up-Alike zero s = ((refl, refl), (refl, omega arith), (refl, refl))
gave_up-Alike (suc n) s =
    let s' = failed connect_retries s in
    ground (
      arith,
      failed-Alike connect_retries s,
      gave_up-Alike n (delay retry_delay (record s' { current_retries = suc s'.current_retries })),
    )

cut-cut : (c : Option Channel) → cut (cut c) ≡ cut c
cut-cut none = refl
cut-cut (some c) = refl

abbrev pub down : Rabbit → Rabbit
down s = record s {
  consumer_channel = cut s.consumer_channel;
  connection = false;
  publish_channel = none;
  consuming = [];
  reconnecting = true;
}

-- With nothing to clean up and no round left, a lost connection changes nothing.
exhausted_stays :
    (answers : ℕ → Bool) (s : Rabbit)
    → s.connection ≡ false
    → s.publish_channel ≡ none
    → s.consuming ≡ []
    → s.reconnecting ≡ false
    → s.current_retries ≡ max_retries
    → cut s.consumer_channel ≡ s.consumer_channel
    → connection_lost true answers s ≡ s
unfolding connection_lost handle_reconnection reconnect cleanup
exhausted_stays answers s c p q r n k = ground (arith, c, p, q, r, n, k)

lost_fails :
    (answers : ℕ → Bool) (s : Rabbit)
    → s.reconnecting ≡ false
    → ((i : ℕ) → s.asked ≤ i → answers i ≡ false)
    → connection_lost true answers s ≡ gave_up (max_retries - s.current_retries) (down s)
unfolding connection_lost handle_reconnection cleanup
lost_fails answers s r h =
    ground (arith, r, reconnect_fails answers (max_retries - s.current_retries) (down s) refl h)

-- The module is enabled, the connection is lost while no reconnection is under way and no more than
-- ten rounds are used up, and every later call of the broker fails: all rounds are used up, and the connection stays down. When it is told lost again, the
-- state is left as it is, whatever the broker would answer by then: there is no further attempt.
pub stays_down :
    (answers later : ℕ → Bool) (s : Rabbit)
    → s.reconnecting ≡ false
    → s.current_retries ≤ max_retries
    → ((i : ℕ) → s.asked ≤ i → answers i ≡ false)
    → let s' = connection_lost true answers s in
      (s'.connection ≡ false)
      × (s'.current_retries ≡ max_retries)
      × (connection_lost true later s' ≡ s')
unfolding cleanup
stays_down answers later s r n h =
    let s1 : Rabbit = down s in
    let s' = connection_lost true answers s in
    let end = lost_fails answers s r h in
    let all = gave_up-Alike (max_retries - s.current_retries) s1 in
    let c : s'.connection ≡ false = ground (arith, end, all) in
    let k : s'.current_retries ≡ max_retries = ground (arith, end, all, n) in
    (
      c,
      k,
      exhausted_stays later s' c (ground (arith, end, all)) (ground (arith, end, all))
          (ground (arith, end, all)) k (ground (arith, end, all, cut-cut s.consumer_channel)),
    )
