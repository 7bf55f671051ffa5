-- ===== src/Broker/Last.antt =====
-- The last one of a list, for the messages in the buffer of src/providers/rabbitmq/RabbitMQ.ts.
use startup_api.Base.{◌≡◌, refl, ap, Bool, true, false, Option, none, some, List, [], ◌∷◌, ◌++◌}

abbrev pub last_from : {A : Type 0} → A → List A → A
last_from x [] = x
last_from x (y ∷ ys) = last_from y ys

abbrev pub has_some : {A : Type 0} → List A → Bool
has_some [] = false
has_some (x ∷ xs) = true

abbrev pub last_of : {A : Type 0} → List A → Option A
last_of [] = none
last_of (x ∷ xs) = some (last_from x xs)

pub has_some-append : {A : Type 0} (xs : List A) (x : A) → has_some (xs ++ x ∷ []) ≡ true
has_some-append [] x = refl
has_some-append (y ∷ ys) x = refl

pub last_from-append :
    {A : Type 0} (x : A) (xs : List A) (y : A) (ys : List A)
    → last_from x (xs ++ y ∷ ys) ≡ last_from y ys
last_from-append x [] y ys = refl
last_from-append x (z ∷ zs) y ys = last_from-append z zs y ys

pub last_of-append :
    {A : Type 0} (xs : List A) (y : A) (ys : List A)
    → last_of (xs ++ y ∷ ys) ≡ some (last_from y ys)
last_of-append [] y ys = refl
last_of-append (x ∷ xs) y ys = ap some (last_from-append x xs y ys)
