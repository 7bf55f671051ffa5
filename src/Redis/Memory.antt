-- ===== src/Redis/Memory.antt =====
-- A server in memory, which meets the laws of the interface: hashes as functions to entry lists.
use startup_api.Base.{
  ℕ, ◌+◌, ◌-◌, ◌*◌, ◌≤◌, String, ◌≡◌, refl, Bool, true, false, ◌&&◌, Option, none, some, List, [],
  ◌∷◌, map, str_eq, if◌then◌else◌, is_some, leb, arith, eq_iff, eq_refl,
}
use startup_api.Base.Value.{Value}
use startup_api.Redis.Api.{
  Backend, ExpireMode, nx, xx, gt, lt, TimeLeft, missing, persistent, left, entry_of, key_of,
}

abbrev pub Entries : Type 0
Entries = List (String × Value)

pub record Server : Type 0 where
  pub hash : String → Entries
  pub deadline : String → Option ℕ
  pub now : ℕ

with_entry : String → Value → Entries → Entries
with_entry k v [] = (k, v) ∷ []
with_entry k v ((j, w) ∷ es) = if str_eq j k then (k, v) ∷ es else (j, w) ∷ with_entry k v es

without : String → Entries → Entries
without k [] = []
without k ((j, w) ∷ es) = let rest = without k es in if str_eq j k then rest else (j, w) ∷ rest

entry_of-with_entry :
    (k j : String) (v : Value) (es : Entries)
    → entry_of j (with_entry k v es) ≡ (if str_eq k j then some v else entry_of j es)
unfolding with_entry
entry_of-with_entry k j v [] = refl
entry_of-with_entry k j v ((i, w) ∷ es) =
    ground (arith, eq_iff k j, eq_iff i k, eq_iff i j, entry_of-with_entry k j v es)

entry_of-without :
    (k j : String) (es : Entries)
    → entry_of j (without k es) ≡ (if str_eq k j then none else entry_of j es)
unfolding without
entry_of-without k j [] = ground arith
entry_of-without k j ((i, w) ∷ es) =
    ground (arith, eq_iff k j, eq_iff i k, eq_iff i j, entry_of-without k j es)

abbrev at {ℓ} : {A : Type ℓ} → String → A → (String → A) → String → A
at n x f m = if str_eq n m then x else f m

unfoldable pub hset : String → String → Value → Server → Server
unfolding with_entry
hset n k v d = record d { hash = at n (with_entry k v (d.hash n)) d.hash }

unfoldable pub hget : String → String → Server → Option Value
hget n k d = entry_of k (d.hash n)

unfoldable pub hsetnx : String → String → Value → Server → Bool × Server
hsetnx n k v d = if is_some (hget n k d) then (false, d) else (true, hset n k v d)

unfoldable pub hdel : String → String → Server → Server
unfolding without
hdel n k d = record d { hash = at n (without k (d.hash n)) d.hash }

unfoldable pub del : String → Server → Server
del n d = record d { hash = at n [] d.hash; deadline = at n none d.deadline }

unfoldable pub is_nil : Entries → Bool
is_nil [] = true
is_nil (e ∷ es) = false

allows : ExpireMode → Option ℕ → ℕ → Bool
allows nx none t = true
allows nx (some u) t = false
allows xx none t = false
allows xx (some u) t = true
allows gt none t = false
allows gt (some u) t = leb (u + 1) t
allows lt none t = true
allows lt (some u) t = leb (t + 1) u

unfoldable pub expire : String → ℕ → ExpireMode → Server → Server
unfolding allows is_nil
expire n s mode d =
    let t = d.now + s * 1000 in
    if is_nil (d.hash n)
    then d
    else if allows mode (d.deadline n) t
    then record d { deadline = at n (some t) d.deadline }
    else d

time_left : Bool → Option ℕ → ℕ → TimeLeft
time_left true t now = missing
time_left false none now = persistent
time_left false (some t) now = left (t - now)

unfoldable pub pttl : String → Server → TimeLeft
unfolding time_left is_nil
pttl n d = time_left (is_nil (d.hash n)) (d.deadline n) d.now

is_over : Option ℕ → ℕ → Bool
is_over none now = false
is_over (some t) now = leb t now

unfoldable pub elapse : ℕ → Server → Server
unfolding is_over
elapse ms d = record {
  hash = λ n. if is_over (d.deadline n) (d.now + ms) then [] else d.hash n;
  deadline = λ n. if is_over (d.deadline n) (d.now + ms) then none else d.deadline n;
  now = d.now + ms;
}

pub hget-hset :
    (n k m j : String) (v : Value) (d : Server)
    → hget m j (hset n k v d) ≡ (if str_eq n m && str_eq k j then some v else hget m j d)
unfolding hget hset
hget-hset n k m j v d = ground (arith, eq_iff n m, entry_of-with_entry k j v (d.hash n))

pub hget-hdel :
    (n k m j : String) (d : Server)
    → hget m j (hdel n k d) ≡ (if str_eq n m && str_eq k j then none else hget m j d)
unfolding hget hdel
hget-hdel n k m j d = ground (arith, eq_iff n m, entry_of-without k j (d.hash n))

pub hget-del :
    (n m j : String) (d : Server) → hget m j (del n d) ≡ (if str_eq n m then none else hget m j d)
unfolding hget del
hget-del n m j d = ground arith

pub hget-expire :
    (n : String) (s : ℕ) (mode : ExpireMode) (m j : String) (d : Server)
    → hget m j (expire n s mode d) ≡ hget m j d
unfolding hget expire
hget-expire n s mode m j d = ground arith

is_nil-with_entry : (k : String) (v : Value) (es : Entries) → is_nil (with_entry k v es) ≡ false
unfolding with_entry is_nil
is_nil-with_entry k v [] = refl
is_nil-with_entry k v ((j, w) ∷ es) = ground arith

pub pttl-hset :
    (n k : String) (v : Value) (d : Server)
    → pttl n d ≡ persistent
    → pttl n (hset n k v d) ≡ persistent
unfolding pttl hset
pttl-hset n k v d h = ground (arith, eq_refl n, is_nil-with_entry k v (d.hash n))

pub hget-elapse-expire :
    (n k : String) (s ms : ℕ) (d : Server)
    → pttl n d ≡ persistent
    → s * 1000 ≤ ms
    → hget n k (elapse ms (expire n s nx d)) ≡ none
unfolding pttl expire elapse hget
hget-elapse-expire n k s ms d h le = ground (arith, eq_refl n)

pub hsetnx_lem :
    (n k : String) (v : Value) (d : Server)
    → hsetnx n k v d ≡ (if is_some (hget n k d) then (false, d) else (true, hset n k v d))
unfolding hsetnx
hsetnx_lem n k v d = refl

pub hgetall_lem : (n k : String) (d : Server) → entry_of k (d.hash n) ≡ hget n k d
unfolding hget
hgetall_lem n k d = refl

instance abbrev pub memory : Backend
memory = record {
  Db = Server;
  Text = Value;
  hset = hset;
  hsetnx = hsetnx;
  hget = hget;
  hgetall = λ n d. d.hash n;
  hkeys = λ n d. map key_of (d.hash n);
  hexists = λ n k d. is_some (hget n k d);
  exists = λ n d. if is_nil (d.hash n) then false else true;
  keys = λ p d. [];
  hdel = hdel;
  del = del;
  expire = expire;
  pttl = pttl;
  elapse = elapse;
  is_empty = λ v. false;
  stringify = λ v. v;
  parse = some;
  hget-hset = hget-hset;
  hget-hdel = hget-hdel;
  hget-del = hget-del;
  hsetnx_lem = hsetnx_lem;
  hexists_lem = λ n k d. refl;
  hkeys_lem = λ n d. refl;
  hgetall_lem = hgetall_lem;
  hget-expire = λ n s mode m j d h. hget-expire n s mode m j d;
  pttl-hset = pttl-hset;
  hget-elapse-expire = hget-elapse-expire;
  parse-stringify = λ v. refl;
  is_empty-stringify = λ v. refl;
}

-- A server that holds nothing.
abbrev pub memory_start : Backend.Db memory
memory_start = record { hash = λ n. []; deadline = λ n. none; now = 0 }
