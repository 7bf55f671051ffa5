-- ===== src/PubSub/Tests.antt =====
-- Deliveries over keys in memory.
use startup_api.Base.{String, ◌≡◌, refl, Bool, true, false, not, ◌||◌, [], ◌∷◌, str_eq}
use startup_api.PubSub.{Keys, Message, PubSub, deliver, handled_once}

abbrev memory : Keys
memory = record {
  Db = String → Bool;
  there = λ k d. d k;
  set_nx = λ k s d. (not (d k), λ j. str_eq k j || d j);
  set_nx-reply = λ k s d. refl;
  there-set_nx = λ k j s d. refl;
}

abbrev fresh : PubSub (String → Bool)
fresh = record {
  enabled = true;
  subscribing = true;
  publishing = true;
  subscribed = [];
  keys = λ k. false;
  published = [];
  handled = [];
}

abbrev message : String → String → Message
message channel id = record { channel = channel; id = id; content = "{}" }

handled_once_example :
    (deliver memory "events"
      (message "events" "1"
        ∷ message "events" "1"
        ∷ message "other" "2"
        ∷ message "events" "3"
        ∷ [])
      fresh).handled
    ≡ message "events" "1" ∷ message "events" "3" ∷ []
handled_once_example =
    handled_once memory "events"
      (message "events" "1"
        ∷ message "events" "1"
        ∷ message "other" "2"
        ∷ message "events" "3"
        ∷ [])
      fresh
