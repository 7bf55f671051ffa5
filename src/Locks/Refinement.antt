-- ===== src/Locks/Refinement.antt =====
-- The locker as an abstract set of the keys that are locked.
use startup_api.Base.{
  String, ◌≡◌, refl, ap, ◌∙◌, suc, zero, Bool, true, false, not, Option, none, some, List, [], ◌∷◌,
  str_eq, ◌||◌, ◌&&◌, arith, is_some, eq_iff, eq_refl,
}
use startup_api.Base.Value.{bool}
use startup_api.Base.Exec.{Result, ok, pure, ◌>>=◌, ◌>>◌}
use startup_api.Redis.{Backend, nx}
use startup_api.HashTable.{Table}
use startup_api.Locks.{lock, has_lock, unlock, clear}
use startup_api.Locks.Exclusion.{Call, locks, asks, unlocks, clears, perform, run}

abbrev pub Locked : Type 0
Locked = String → Bool

-- What a call answers, where it answers anything.
abbrev pub meaning : Call → Locked → Option Bool
meaning (locks k ttl) σ = some (not (σ k))
meaning (asks k) σ = some (σ k)
meaning (unlocks k) σ = none
meaning clears σ = none

abbrev pub next : Call → Locked → Locked
next (locks k ttl) σ = λ j. str_eq k j || σ j
next (asks k) σ = σ
next (unlocks k) σ = λ j. not (str_eq k j) && σ j
next clears σ = λ j. false

abbrev pub meanings : List Call → Locked → List (Result (Option Bool))
meanings [] σ = []
meanings (c ∷ cs) σ = ok (meaning c σ) ∷ meanings cs (next c σ)

abbrev pub last : List Call → Locked → Locked
last [] σ = σ
last (c ∷ cs) σ = last cs (next c σ)

module _ ⦃B : Backend⦄ where
  open B use {Db, hget}

  abbrev flag : B.Text
  flag = B.stringify (bool true)

  unfoldable pub answer : Call → Table Db → Result (Option Bool)
  answer (locks k ttl) t = ((do r ← lock k ttl; pure (some r)) t).0
  answer (asks k) t = ((do r ← has_lock k; pure (some r)) t).0
  answer (unlocks k) t = ((do unlock k; pure none) t).0
  answer clears t = ((do clear; pure none) t).0

  abbrev pub answers : List Call → Table Db → List (Result (Option Bool))
  answers [] t = []
  answers (c ∷ cs) t = answer c t ∷ answers cs (perform c t)

  abbrev pub is_locked : Table Db → Locked
  is_locked t k = is_some (hget "locks" k t.db)

  perform_refines :
      (c : Call) (t : Table Db)
      → t.connected ≡ true
      → (answer c t ≡ ok (meaning c (is_locked t)))
        × ((k : String) → is_locked (perform c t) k ≡ next c (is_locked t) k)
        × ((perform c t).connected ≡ true)
  unfolding answer lock has_lock unlock clear
  perform_refines (locks k none) t c = (
    ground (arith, c, B.hsetnx_lem "locks" k flag t.db),
    (λ j. ground (
      arith,
      c,
      eq_iff k j,
      eq_refl k,
      B.hsetnx_lem "locks" k flag t.db,
      B.hget-hset "locks" k "locks" j flag t.db,
    )),
    ground (arith, c, B.hsetnx_lem "locks" k flag t.db),
  )
  perform_refines (locks k (some zero)) t c = (
    ground (arith, c, B.hsetnx_lem "locks" k flag t.db),
    (λ j. ground (
      arith,
      c,
      eq_iff k j,
      eq_refl k,
      B.hsetnx_lem "locks" k flag t.db,
      B.hget-hset "locks" k "locks" j flag t.db,
    )),
    ground (arith, c, B.hsetnx_lem "locks" k flag t.db),
  )
  perform_refines (locks k (some (suc s))) t c = (
    ground (arith, c, B.hsetnx_lem "locks" k flag t.db),
    (λ j. ground (
      arith,
      c,
      eq_iff k j,
      eq_refl k,
      B.hsetnx_lem "locks" k flag t.db,
      B.hget-hset "locks" k "locks" j flag t.db,
      B.hget-expire "locks" (suc s) nx "locks" j (B.hset "locks" k flag t.db),
    )),
    ground (arith, c, B.hsetnx_lem "locks" k flag t.db),
  )
  perform_refines (asks k) t c =
      (ground (arith, c, B.hexists_lem "locks" k t.db), (λ j. ground (arith, c)), ground (arith, c))
  perform_refines (unlocks k) t c = (
    ground (arith, c),
    (λ j. ground (arith, c, B.hget-hdel "locks" k "locks" j t.db)),
    ground (arith, c),
  )
  perform_refines clears t c = (
    ground (arith, c),
    (λ j. ground (arith, c, B.hget-del "locks" "locks" j t.db)),
    ground (arith, c),
  )

  -- The answers and the keys depend on what is locked only.
  meanings-eq :
      (cs : List Call) (σ τ : Locked)
      → ((k : String) → σ k ≡ τ k)
      → (meanings cs σ ≡ meanings cs τ) × ((k : String) → last cs σ k ≡ last cs τ k)
  meanings-eq cs σ τ h =
      let e : σ ≡ τ = λ i k. h k i in (ap (meanings cs) e, (λ k. ap (λ ρ. last cs ρ k) e))

  -- While no deadline passes, a locker with its connection behaves as a set of keys: whatever
  -- sequence of calls is made, by whomever, each of them answers without an error, a request for a lock
  -- that it is given exactly if the key is not in the set, which it is then added to, a question whether
  -- it is in the set; releasing takes the key out of the set, and clearing empties it.
  pub set_of_keys :
      (cs : List Call) (t : Table Db)
      → t.connected ≡ true
      → (answers cs t ≡ meanings cs (is_locked t))
        × ((k : String) → is_locked (run cs t) k ≡ last cs (is_locked t) k)
  set_of_keys [] t c = (refl, (λ k. refl))
  set_of_keys (d ∷ cs) t c =
      let (a, v, c') = perform_refines d t c in
      let (r, w) = set_of_keys cs (perform d t) c' in
      let (m, l) = meanings-eq cs (is_locked (perform d t)) (next d (is_locked t)) v in
      (
        ap (λ x. x ∷ answers cs (perform d t)) a
            ∙ ap (λ xs. ok (meaning d (is_locked t)) ∷ xs) (r ∙ m),
        (λ k. w k ∙ l k),
      )
