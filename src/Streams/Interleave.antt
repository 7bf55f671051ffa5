-- ===== src/Streams/Interleave.antt =====
-- Two sequences of messages that make up a third one, for what was read and what was lost of a stream in
-- src/providers/redis/RedisStreams.ts.
use startup_api.Base.{List, [], ◌∷◌, ◌++◌}

-- The third list is the first two, each in its order, put together.
pub data Interleave {A : Type 0} : List A → List A → List A → Type 0 where
  done : Interleave [] [] []
  left : (x : A) (xs ys zs : List A) → Interleave xs ys zs → Interleave (x ∷ xs) ys (x ∷ zs)
  right : (y : A) (xs ys zs : List A) → Interleave xs ys zs → Interleave xs (y ∷ ys) (y ∷ zs)

pub lefts :
    {A : Type 0} (ms xs ys zs : List A) → Interleave xs ys zs → Interleave (ms ++ xs) ys (ms ++ zs)
lefts [] xs ys zs h = h
lefts (m ∷ ms) xs ys zs h = left m (ms ++ xs) ys (ms ++ zs) (lefts ms xs ys zs h)

pub rights :
    {A : Type 0} (ms xs ys zs : List A) → Interleave xs ys zs → Interleave xs (ms ++ ys) (ms ++ zs)
rights [] xs ys zs h = h
rights (m ∷ ms) xs ys zs h = right m xs (ms ++ ys) (ms ++ zs) (rights ms xs ys zs h)

pub all_left : {A : Type 0} (xs : List A) → Interleave xs [] xs
all_left [] = done
all_left (x ∷ xs) = left x xs [] xs (all_left xs)
