-- ===== src/Streams/Tests.antt =====
-- Examples of messages and of lost connections.
use startup_api.Base.{
  ℕ, zero, suc, String, ◌≡◌, refl, true, false, List, [], ◌∷◌, ◌++◌, map, arith, if◌then◌else◌,
  str_eq,
}
use startup_api.Base.Value.{str, Fields, end, field}
use startup_api.Base.Exec.{Error, plain, literal, Result, ok, err, Exec}
use startup_api.Streams.{Attempt, Connections}
use startup_api.Streams.Interleave.{Interleave}
use startup_api.Streams.Reading.{
  Group, Reader, content, read_from_stream, lost_in, handled_in_order,
}

abbrev lost : Error
lost = plain (literal "Connection is closed.")

-- A stream that refuses the first message: the tries, and the messages that are on it.
abbrev send : List String → Exec (ℕ × ℕ) Unit
send texts (zero, sent) = (err lost, (1, sent))
send texts (suc n, sent) = (ok tt, (suc (suc n), suc sent))

abbrev message : Fields
message = field "type" (str "Move") end

abbrev connections : Connections
connections = record {
  reader_ready = true;
  writer_ready = true;
  shutting_down = false;
  trim_interval = true;
  reconnection_attempts = 0;
  waits = [];
}

abbrev attempts : List Attempt
attempts =
    record { shut_down = false; succeeds = false }
    ∷ record { shut_down = false; succeeds = true }
    ∷ []

abbrev Stream : Type 0
Stream = List (String × Fields)

-- The answer with the message "1" does not arrive.
read_one : Stream → Result Stream × Stream
read_one [] = (ok [], [])
read_one ((id, m) ∷ ms) = (if str_eq id "1" then err lost else ok ((id, m) ∷ []), ms)

lost_one : Stream → Stream
lost_one [] = []
lost_one (m ∷ ms) = m ∷ []

read_one-unread : (ms d : Stream) → (read_one d).0 ≡ ok ms → ms ++ (read_one d).1 ≡ d
unfolding read_one
read_one-unread ms [] h = ground (arith, h)
read_one-unread ms ((id, m) ∷ d) h = ground (arith, h)

read_one-failed :
    (e : Error) (d : Stream) → (read_one d).0 ≡ err e → lost_one d ++ (read_one d).1 ≡ d
unfolding read_one lost_one
read_one-failed e [] h = ground (arith, h)
read_one-failed e (m ∷ d) h = refl

-- A stream that gives its messages one by one.
abbrev stream : Group
stream = record {
  Db = Stream;
  unread = λ d. d;
  lost = λ n. lost_one;
  read = λ n. read_one;
  acknowledge = λ ids d. (ok tt, d);
  make = λ d. (ok tt, d);
  is_no_group = λ e. false;
  unread-read = λ n. read_one-unread;
  unread-failed = λ n. read_one-failed;
  unread-acknowledge = λ ids d. refl;
  unread-make = λ d. refl;
}

abbrev three_messages : Reader Stream
three_messages = record {
  db = ("0", end) ∷ ("1", message) ∷ ("2", message) ∷ [];
  connections = connections;
  handled = [];
}

abbrev passes : List (List Attempt)
passes = [] ∷ (record { shut_down = false; succeeds = true } ∷ []) ∷ []

-- The first message is handled, the second one is lost, and the third one is not read yet.
handled_in_order_example :
    let s' = (read_from_stream stream (λ m. false) passes three_messages).1 in
    (new : List Fields) × (s'.handled ≡ new)
    × Interleave
        (new ++ map content s'.db)
        (lost_in stream (λ m. false) passes three_messages)
        (end ∷ message ∷ message ∷ [])
handled_in_order_example = handled_in_order stream (λ m. false) passes three_messages
