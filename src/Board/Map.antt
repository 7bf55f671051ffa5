-- ===== src/Board/Map.antt =====
-- The map of the queues and the page, as the loops over names change them.
use startup_api.Base.{
  String, ◌≡◌, refl, ◌∙◌, not, ◌&&◌, ◌||◌, List, [], ◌∷◌, if◌then◌else◌, includes, str_eq, arith,
  eq_iff,
}
use startup_api.Queue.Registry.{without_name}
use startup_api.Queue.Registry.Shutdown.{includes-without_name}
use startup_api.Board.{Board}

module _ {Db : Type 0} where
  -- The page shows the queues of the map.
  abbrev pub Agrees : Board Db → Type 0
  Agrees b = (q : String) → includes q b.shown ≡ includes q b.monitored

  abbrev pub with_queue : String → Board Db → Board Db
  with_queue n b =
      if includes n b.monitored
      then b
      else record b { monitored = n ∷ b.monitored; shown = n ∷ b.shown }

  abbrev without_queue : String → Board Db → Board Db
  without_queue n b =
      if includes n b.monitored
      then record b { monitored = without_name n b.monitored; shown = without_name n b.shown }
      else b

  abbrev pub kept : List String → String → Board Db → Board Db
  kept ns k b = if includes k ns then b else without_queue k b

  unfoldable pub added : List String → Board Db → Board Db
  added [] b = b
  added (n ∷ ns) b = added ns (with_queue n b)

  unfoldable pub removed : List String → List String → Board Db → Board Db
  removed ns [] b = b
  removed ns (k ∷ ks) b = removed ns ks (kept ns k b)

  with_queue_lem :
      (q n : String) (b : Board Db)
      → Agrees b
      → (includes q (with_queue n b).monitored ≡ (str_eq n q || includes q b.monitored))
        × (includes q (with_queue n b).shown ≡ includes q (with_queue n b).monitored)
  with_queue_lem q n b a = (ground (arith, eq_iff n q), ground (arith, eq_iff n q, a q, a n))

  without_queue_lem :
      (q n : String) (b : Board Db)
      → Agrees b
      → (includes q (without_queue n b).monitored ≡ (includes q b.monitored && not (str_eq n q)))
        × (includes q (without_queue n b).shown ≡ includes q (without_queue n b).monitored)
  without_queue_lem q n b a = (
    ground (arith, eq_iff n q, includes-without_name q n b.monitored),
    ground (
      arith,
      eq_iff n q,
      a q,
      includes-without_name q n b.monitored,
      includes-without_name q n b.shown,
    ),
  )

  kept_lem :
      (q : String) (ns : List String) (k : String) (b : Board Db)
      → Agrees b
      → (includes q (kept ns k b).monitored
          ≡ (includes q b.monitored && (includes k ns || not (str_eq k q))))
        × (includes q (kept ns k b).shown ≡ includes q (kept ns k b).monitored)
  kept_lem q ns k b a = (
    ground (arith, (without_queue_lem q k b a).0),
    ground (arith, (without_queue_lem q k b a).1, a q),
  )

  added_lem :
      (q : String) (ns : List String) (b : Board Db)
      → Agrees b
      → (includes q (added ns b).monitored ≡ (includes q ns || includes q b.monitored))
        × (includes q (added ns b).shown ≡ includes q (added ns b).monitored)
  unfolding added
  added_lem q [] b a = (refl, a q)
  added_lem q (n ∷ ns) b a =
      let (m, s) = added_lem q ns (with_queue n b) (λ r. (with_queue_lem r n b a).1) in
      (m ∙ ground (arith, (with_queue_lem q n b a).0), s)

  removed_lem :
      (q : String) (ns ks : List String) (b : Board Db)
      → Agrees b
      → (includes q (removed ns ks b).monitored
          ≡ (includes q b.monitored && (includes q ns || not (includes q ks))))
        × (includes q (removed ns ks b).shown ≡ includes q (removed ns ks b).monitored)
  unfolding removed
  removed_lem q ns [] b a = (ground arith, a q)
  removed_lem q ns (k ∷ ks) b a =
      let (m, s) = removed_lem q ns ks (kept ns k b) (λ r. (kept_lem r ns k b a).1) in
      (m ∙ ground (arith, eq_iff k q, (kept_lem q ns k b a).0), s)

  pub added-borrowed : (ns : List String) (b : Board Db) → (added ns b).borrowed ≡ b.borrowed
  unfolding added
  added-borrowed [] b = refl
  added-borrowed (n ∷ ns) b = added-borrowed ns (with_queue n b) ∙ ground arith

  pub removed-borrowed :
      (ns ks : List String) (b : Board Db) → (removed ns ks b).borrowed ≡ b.borrowed
  unfolding removed
  removed-borrowed ns [] b = refl
  removed-borrowed ns (k ∷ ks) b = removed-borrowed ns ks (kept ns k b) ∙ ground arith

  -- The page and the map for these queues.
  abbrev pub synced : List String → Board Db → Board Db
  synced ns b = removed ns (added ns b).monitored (added ns b)

  pub synced_lem :
      (q : String) (ns : List String) (b : Board Db)
      → Agrees b
      → (includes q (synced ns b).monitored ≡ includes q ns)
        × (includes q (synced ns b).shown ≡ includes q ns)
  synced_lem q ns b a =
      let (m, s) =
        removed_lem q ns (added ns b).monitored (added ns b) (λ r. (added_lem r ns b a).1) in
      let kept_names : includes q (synced ns b).monitored ≡ includes q ns =
        m ∙ ground (arith, (added_lem q ns b a).0) in
      (kept_names, s ∙ kept_names)
