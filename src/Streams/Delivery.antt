-- ===== src/Streams/Delivery.antt =====
-- What a message goes through on its way.
use startup_api.Base.{
  ℕ, String, ◌≡◌, refl, ◌∙◌, true, false, Option, none, some, List, length, ltb, arith, eq_iff,
}
use startup_api.Base.Value.{Value, Fields, end, field, get, put, get-put}
use startup_api.Base.Exec.{Error, ok, err, Exec}
use startup_api.Streams.{
  serialize_message, deserialize_from, deserialize_message, parsed, retry_from, retry_operation,
  retry_delay, retries, add_to_stream,
}

-- No name stands twice in an object.
abbrev pub Distinct : Fields → Type 0
Distinct end = Unit {0}
Distinct (field k v fs) = (get k fs ≡ none) × Distinct fs

abbrev first_of : Option Value → Option Value → Option Value
first_of none o = o
first_of (some v) o = some v

module _ (stringify : Value → String) (parse : String → Option Value) where
  -- The JSON text of each value of an object is read back as that value.
  abbrev pub Readable : Fields → Type 0
  Readable end = Unit {0}
  Readable (field k v fs) = (parse (stringify v) ≡ some v) × Readable fs

  get-deserialize_from :
      (k : String) (m acc : Fields)
      → Distinct m
      → Readable m
      → get k (deserialize_from stringify parse (serialize_message stringify parse m) acc)
        ≡ first_of (get k m) (get k acc)
  unfolding serialize_message deserialize_from get
  get-deserialize_from k end acc d r = refl
  get-deserialize_from k (field j v fs) acc (fresh, d) (reads, r) =
      get-deserialize_from k fs (put j (parsed stringify parse (stringify v)) acc) d r
      ∙ ground
          (arith, fresh, reads, eq_iff j k, get-put j k (parsed stringify parse (stringify v)) acc)

  -- A message with no name twice comes out of the stream with every field as it went in, as long
  -- as the JSON texts of its values are read back as those values.
  pub deserialize-serialize :
      (m : Fields) (k : String)
      → Distinct m
      → Readable m
      → get k (deserialize_message stringify parse (serialize_message stringify parse m)) ≡ get k m
  deserialize-serialize m k d r =
      unfold get in (get-deserialize_from k m end d r ∙ ground (arith, get k m))

module _ {S : Type 0} (wait : ℕ → S → S) where
  -- A message whose first sending fails is sent three times over, if every later sending
  -- succeeds at once.
  -- The condition is that the message has at most 1000 names and values.
  failed_message_sent_thrice :
      (stringify : Value → String) (parse : String → Option Value)
      (xadd : List String → Exec S Unit) (m : Fields) (e : Error) (s s₁ s₂ s₃ s₄ : S)
      → ltb 1000 (length (serialize_message stringify parse m)) ≡ false
      → xadd (serialize_message stringify parse m) s ≡ (err e, s₁)
      → xadd (serialize_message stringify parse m) s₁ ≡ (ok tt, s₂)
      → xadd (serialize_message stringify parse m) s₂ ≡ (ok tt, s₃)
      → xadd (serialize_message stringify parse m) s₃ ≡ (ok tt, s₄)
      → add_to_stream wait stringify parse true xadd m s ≡ (ok tt, s₄)
  unfolding add_to_stream retries retry_from
  failed_message_sent_thrice stringify parse xadd m e s s₁ s₂ s₃ s₄ short f a b c =
      ground (arith, short, f, a, b, c)

  -- An operation that keeps failing is tried three times, with a wait between two tries and none after the
  -- last; the last error is thrown.
  retry_operation-fails :
      {R : Type 0} (operation : Exec S R) (e₁ e₂ e₃ : Error) (s s₁ s₂ s₃ : S)
      → operation s ≡ (err e₁, s₁)
      → operation (wait retry_delay s₁) ≡ (err e₂, s₂)
      → operation (wait retry_delay s₂) ≡ (err e₃, s₃)
      → retry_operation wait operation s ≡ (err e₃, s₃)
  unfolding retry_from
  retry_operation-fails operation e₁ e₂ e₃ s s₁ s₂ s₃ a b c = ground (arith, a, b, c)
