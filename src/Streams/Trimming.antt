-- ===== src/Streams/Trimming.antt =====
-- The timer of src/providers/redis/RedisStreams.ts that trims the streams, and the method that clears
-- them. The names of the channels are those of the enumeration.
use startup_api.Base.{
  ℕ, String, ◌≡◌, refl, true, List, [], ◌∷◌, map, str_eq, if◌then◌else◌, arith, includes,
}
use startup_api.Base.Exec.{Exec}
use startup_api.Streams.{Connections, trim_stream, delete_stream, shutdown}

abbrev pub stagger_offset : ℕ
stagger_offset = 5000

-- `Example max length`
abbrev pub max_length : ℕ
max_length = 10000

-- What one tick of the interval sets up: for each channel a timer, with its delay.
unfoldable pub trim_timers : List String → List (ℕ × String)
trim_timers channels = map (λ channel. (stagger_offset, channel)) channels

-- `S` is the server, and the commands are those of the writer for a channel.
module _ {S : Type 0} (xtrim : String → ℕ → Exec S Unit) (del : String → Exec S Unit) where
  -- A timer that is due.
  unfoldable pub trim_due : String → Connections → S → S
  trim_due channel c s = if c.shutting_down then s else trim_stream (xtrim channel) max_length c s

  unfoldable pub clear_all_streams : List String → Connections → S → S
  clear_all_streams [] c s = s
  clear_all_streams (channel ∷ rest) c s =
      clear_all_streams rest c (delete_stream (del channel) c s)

  -- A timer that was set up before a shutdown and is due after it sends no command, nor is a stream
  -- cleared then.
  quiet_after_shutdown :
      (channel : String) (channels : List String) (c : Connections) (s : S)
      → (trim_due channel (shutdown c) s ≡ s) × (clear_all_streams channels (shutdown c) s ≡ s)
  unfolding trim_due clear_all_streams shutdown delete_stream
  quiet_after_shutdown channel [] c s = (refl, refl)
  quiet_after_shutdown channel (d ∷ rest) c s = (refl, (quiet_after_shutdown channel rest c s).1)

  module _ (size : String → S → ℕ)
      (size-del : (c d : String) (s : S)
        → size d (del c s).1 ≡ (if str_eq c d then 0 else size d s)) where
    size-clear_all_streams :
        (channels : List String) (d : String) (c : Connections) (s : S)
        → c.writer_ready ≡ true
        → size d (clear_all_streams channels c s) ≡ (if includes d channels then 0 else size d s)
    unfolding clear_all_streams delete_stream
    size-clear_all_streams [] d c s ready = refl
    size-clear_all_streams (e ∷ rest) d c s ready =
        ground (arith, ready, size-del e d s, size-clear_all_streams rest d c (del e s).1 ready)
