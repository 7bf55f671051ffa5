-- ===== src/Mailer/Sending.antt =====
-- Who is written to, and how often.
use startup_api.Base.{
  ℕ, String, ◌≡◌, refl, Bool, true, false, Option, none, some, List, [], ◌∷◌, or_else, arith,
}
use startup_api.Base.Value.{date, str, obj, Fields, end, field, get}
use startup_api.Base.Exec.{Result, ok, err}
use startup_api.Repository.Database.{Adapter}
use startup_api.Repository
use startup_api.Repository.{populated, rewrap}
use startup_api.Accounts.Premium.{is_true}
use startup_api.Mailer.{
  Letter, Provider, Post, action_of, find_logs_by_action, address_filter, pass, send_through, send,
}

module _ (U L : Adapter) (now today : ℕ) (templates : Result (String × String))
    (linked : String → String → String) where
  abbrev logs_query : Provider → Fields
  logs_query provider =
      field "action" (str (action_of provider))
        (field "createdAt" (obj (field "$gte" (date today) end)) end)

  pass_at :
      (provider : Provider) (to : Option String) (from : String) (letter : Letter) (r : Fields)
      (o : Result (List Fields)) (w : Post U.Db L.Db)
      → U.find_by (address_filter U L now today templates linked to) none w.users ≡ ok (some r)
      → is_true (get "unsubscribed" (populated ⦃A = U⦄ r)) ≡ true
      → L.find_all (logs_query provider) none w.logs ≡ o
      → (pass U L now today templates linked provider to from letter w).1 ≡ w
  unfolding pass find_logs_by_action Repository.find_all Repository.find_by rewrap
  pass_at provider to from letter r (ok logs) w f u l = ground (arith, f, u, l)
  pass_at provider to from letter r (err e) w f u l = ground (arith, f, u, l)

  -- The state after the whole loop is the one before it.
  through_lem :
      (providers : List Provider) (to : Option String) (from : String) (letter : Letter)
      (r : Fields) (w : Post U.Db L.Db)
      → U.find_by (address_filter U L now today templates linked to) none w.users ≡ ok (some r)
      → is_true (get "unsubscribed" (populated ⦃A = U⦄ r)) ≡ true
      → (send_through U L now today templates linked providers to from letter w).1 ≡ w
  unfolding send_through
  through_lem [] to from letter r w f u = refl
  through_lem (provider ∷ rest) to from letter r w f u = ground (
    arith,
    pass_at provider to from letter r (L.find_all (logs_query provider) none w.logs) w f u refl,
    through_lem rest to from letter r w f u,
  )

  send_at :
      (o : Result (String × String)) (providers : List Provider) (to : Option String)
      (subject from : String) (r : Fields) (w : Post U.Db L.Db)
      → templates ≡ o
      → U.find_by (address_filter U L now today templates linked to) none w.users ≡ ok (some r)
      → is_true (get "unsubscribed" (populated ⦃A = U⦄ r)) ≡ true
      → (send U L now today templates linked false providers to subject from w).1 ≡ w
  unfolding send
  send_at (err e) providers to subject from r w t f u = ground (arith, t)
  send_at (ok (html, text)) providers to subject from r w t f u =
      let address = or_else to "" in
      let letter : Letter = record {
        to = address;
        from = from;
        subject = subject;
        html = linked html address;
        text = text;
      } in
      ground (arith, t, through_lem providers to from letter r w f u)

  -- A user who has unsubscribed is sent nothing, through whichever service: no letter is given to one, and no
  -- log is written.
  unsubscribed_gets_nothing :
      (development : Bool) (providers : List Provider) (to : Option String) (subject from : String)
      (r : Fields) (w : Post U.Db L.Db)
      → U.find_by (address_filter U L now today templates linked to) none w.users ≡ ok (some r)
      → is_true (get "unsubscribed" (populated ⦃A = U⦄ r)) ≡ true
      → (send U L now today templates linked development providers to subject from w).1 ≡ w
  unfolding send
  unsubscribed_gets_nothing true providers to subject from r w f u = refl
  unsubscribed_gets_nothing false providers to subject from r w f u =
      send_at templates providers to subject from r w refl f u
