-- ===== src/PubSub.antt =====
-- src/providers/redis/RedisPubSub.ts: messages on a channel, each with an identifier, by which the
-- subscribers agree that one of them handles it.
mod Tests
use Prim.Native.String.{◌++◌}
use text.Mathlib.TextLemmas.{append_cancel_left}
use startup_api.Base.{
  ℕ, String, ◌≡◌, refl, ap, sym, ◌∙◌, Bool, true, false, not, ◌||◌, ◌&&◌, Option, none, some, List,
  [], ◌∷◌, str_eq, if◌then◌else◌, arith, eq_iff, eq_refl, keep,
}
use mathlib.Core.List.{◌++◌ as append, append-nil, append_assoc}
use startup_api.Base.Value.{Value, Fields, end, field, str, get}
use startup_api.Base.Exec.{
  literal, Error, plain, Result, ok, err, Exec, pure, raise_if, ◌>>=◌, ◌>>◌,
}

-- What the program relies on in `SET key "1" EX seconds NX`: the key is written, until its time is over, if
-- it is not there, and only then is the reply OK. No time passes here.
pub record Keys : Type 1 where
  pub Db : Type 0
  pub there : String → Db → Bool
  pub set_nx : String → ℕ → Db → Bool × Db
  pub set_nx-reply : (k : String) (s : ℕ) (d : Db) → (set_nx k s d).0 ≡ not (there k d)
  pub there-set_nx :
      (k j : String) (s : ℕ) (d : Db) → there j (set_nx k s d).1 ≡ (str_eq k j || there j d)

-- A message of the channel, and what `publish` wraps it in.
pub record Message : Type 0 where
  pub channel : String
  pub id : String
  pub content : String

-- The connections, the keys, what was published and what the callbacks were given.
pub record PubSub (Db : Type 0) : Type 0 where
  pub enabled : Bool
  pub subscribing : Bool
  pub publishing : Bool
  pub subscribed : List String
  pub keys : Db
  pub published : List Message
  pub handled : List Message

abbrev pub lock_key : String → String
lock_key id = "processed:" ++ id

abbrev pub lock_seconds : ℕ
lock_seconds = 60

module _ (K : Keys) where
  abbrev Action : Type 0 → Type 0
  Action R = Exec (PubSub K.Db) R

  abbrev change : (PubSub K.Db → PubSub K.Db) → Action Unit
  change f s = (ok tt, f s)

  -- `pool` is what the Redis manager answers.
  unfoldable pub init : Result (Unit {0}) → Action Unit
  init pool = do
    λ s. (
      if s.enabled
          then ok tt
          else err (plain (literal "Redis or RedisPubSub modules are not enabled.")),
      s,
    )
    λ s. (pool, s)
    change (λ s. record s { subscribing = true })
    λ s. (pool, s)
    change (λ s. record s { publishing = true })

  unfoldable pub subscribe : String → Action Unit
  subscribe channel s =
      if s.subscribing
      then (ok tt, record s { subscribed = channel ∷ s.subscribed })
      else (err (plain (literal "Cannot read properties of undefined")), s)

  -- The listener that `subscribe` installs for a channel.
  unfoldable pub on_message : String → Message → PubSub K.Db → PubSub K.Db
  on_message channel m s =
      let (won, keys) = K.set_nx (lock_key m.id) lock_seconds s.keys in
      if str_eq m.channel channel
      then (if won
          then record s { keys = keys; handled = append s.handled (m ∷ []) }
          else record s { keys = keys })
      else s

  -- `id` is a new identifier, and `sent` says whether publishing succeeds; what it throws is logged.
  unfoldable pub publish : String → Bool → String → String → Action Unit
  publish id sent channel message s =
      if s.publishing
      then (
        ok tt,
        if sent
            then record s {
              published = record { channel = channel; id = id; content = message } ∷ s.published;
            }
            else s,
      )
      else (err (plain (literal "Redis publish connection not initialized.")), s)

  unfoldable pub unsubscribe : PubSub K.Db → PubSub K.Db
  unsubscribe s = if s.subscribing then record s { subscribed = [] } else s

  -- The deliveries of messages to the listeners of one channel, in all processes, in their order.
  abbrev pub deliver : String → List Message → PubSub K.Db → PubSub K.Db
  deliver channel [] s = s
  deliver channel (m ∷ ms) s = deliver channel ms (on_message channel m s)

-- The first deliveries of the messages of a channel, less those whose identifiers are excluded.
abbrev pub firsts : String → (String → Bool) → List Message → List Message
firsts channel seen [] = []
firsts channel seen (m ∷ ms) =
    let fresh = str_eq m.channel channel && not (seen m.id) in
    let rest = firsts channel (λ i. (str_eq m.channel channel && str_eq m.id i) || seen i) ms in
    if fresh then m ∷ rest else rest

same_lock : (a b : String) → str_eq (lock_key a) (lock_key b) ≡ str_eq a b
same_lock a b = ground (
  arith,
  eq_iff (lock_key a) (lock_key b),
  eq_iff a b,
  λ (h : lock_key a ≡ lock_key b). append_cancel_left "processed:" a b h,
  λ (h : a ≡ b). ap lock_key h,
)

module _ (K : Keys) where
  abbrev pub seen : PubSub K.Db → String → Bool
  seen s id = K.there (lock_key id) s.keys

  on_message-seen :
      (channel : String) (m : Message) (s : PubSub K.Db) (id : String)
      → seen (on_message K channel m s) id
        ≡ ((str_eq m.channel channel && str_eq m.id id) || seen s id)
  unfolding on_message
  on_message-seen channel m s id = ground (
    arith,
    K.set_nx-reply (lock_key m.id) lock_seconds s.keys,
    K.there-set_nx (lock_key m.id) (lock_key id) lock_seconds s.keys,
    same_lock m.id id,
  )

  on_message-handled :
      (channel : String) (m : Message) (s : PubSub K.Db)
      → (on_message K channel m s).handled ≡ (
          if str_eq m.channel channel && not (seen s m.id)
          then append s.handled (m ∷ [])
          else s.handled)
  unfolding on_message
  on_message-handled channel m s =
      ground (arith, K.set_nx-reply (lock_key m.id) lock_seconds s.keys)

  -- Within the life of the keys: however often, in whatever order and to however many processes the
  -- messages of a channel are delivered, the callbacks are given the first delivery of each
  -- identifier that was not seen before, in their order, and no other.
  pub handled_once :
      (channel : String) (ms : List Message) (s : PubSub K.Db)
      → (deliver K channel ms s).handled ≡ append s.handled (firsts channel (seen s) ms)
  handled_once channel [] s = sym (append-nil s.handled)
  handled_once channel (m ∷ ms) s =
      let s' = on_message K channel m s in
      let e : seen s' ≡ (λ id. (str_eq m.channel channel && str_eq m.id id) || seen s id) =
        λ i id. on_message-seen channel m s id i in
      handled_once channel ms s'
      ∙ ap (λ f. append s'.handled (firsts channel f ms)) e
      ∙ ground (
        arith,
        on_message-handled channel m s,
        append_assoc s.handled (m ∷ [])
            (firsts channel (λ id. (str_eq m.channel channel && str_eq m.id id) || seen s id) ms),
      )
