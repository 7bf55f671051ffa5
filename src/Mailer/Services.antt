-- ===== src/Mailer/Services.antt =====
-- emails/TransactionalEmailProviders.ts: the two services with what each may send in a day, and the
-- choice between them.
use Prim.Native.String.{◌++◌}
use startup_api.Base.{
  ℕ, String, ◌≡◌, ◌≢◌, refl, Bool, true, false, Option, none, some, List, [], ◌∷◌, length, ltb,
  arith, eq_iff, if◌then◌else◌, map, inl, inr, Bool-cases, ◌∙◌,
}
use startup_api.Base.Value.{date, str, obj, Fields, end, field, get}
use startup_api.Base.Exec.{Result, ok, err, result_cases}
use startup_api.Repository.Database.{Adapter}
use startup_api.Repository
use startup_api.Repository.{populated, rewrap}
use startup_api.Accounts.Premium.{is_true}
use startup_api.Accounts.World.{entry}
use startup_api.Mailer.{
  Letter, Provider, Post, create_log, find_logs_by_action, give, submit_to, pass, send_through,
  send,
}

-- A service gives true, or false if the call of its library throws.
abbrev submitted : Result {0} Unit → Bool
submitted (ok _) = true
submitted (err e) = false

unfoldable pub get_providers :
    (Letter → Result {0} Unit) → (Letter → Result {0} Unit) → List Provider
get_providers send_transac_email sg_mail_send =
    record {
      key = "SENDINBLUE";
      credits = 300;
      submit = λ letter. ok (submitted (send_transac_email letter));
    }
    ∷ record {
      key = "SENDGRID";
      credits = 100;
      submit = λ letter. ok (submitted (sg_mail_send letter));
    }
    ∷ []

abbrev pub logs_query : String → ℕ → Fields
logs_query key today =
    field "action" (str (key ++ "_EMAIL_SUBMISSION"))
      (field "createdAt" (obj (field "$gte" (date today) end)) end)

module _ (U L : Adapter) (now today : ℕ) (linked : String → String → String) where
  -- The letter is given, and the answer is true if the service took it and the log could be written.
  abbrev pub after : Bool → String → String → Letter → Post U.Db L.Db → Bool × Post U.Db L.Db
  after false key from l w = (false, record w { given = l ∷ w.given })
  after true key from l w =
      let (r, d) =
        Repository.create ⦃A = L⦄ now []
          (field "action" (str (key ++ "_EMAIL_SUBMISSION"))
            (field "emitter" (str from) (field "target" (str l.to) end)))
          w.logs in
      (elim r [ ok q ↦ true | err e ↦ false ], record w { given = l ∷ w.given; logs = d })

  length-map : {A B : Type 0} (f : A → B) (xs : List A) → length (map f xs) ≡ length xs
  length-map f [] = refl
  length-map f (x ∷ xs) = ground (arith, length-map f xs)

  -- What was sent through the service today.
  logs_found :
      (templates : Result (String × String)) (key : String) (logs : List Fields)
      (w : Post U.Db L.Db)
      → L.find_all (logs_query key today) none w.logs ≡ ok logs
      → (found : List Fields) × (length found ≡ length logs)
        × (find_logs_by_action U L now today templates linked (key ++ "_EMAIL_SUBMISSION") today w
            ≡ (ok found, w))
  unfolding find_logs_by_action Repository.find_all
  logs_found templates key logs w f = (
    map (λ r. r) (map (populated ⦃A = L⦄) logs),
    length-map (λ r. r) (map (populated ⦃A = L⦄) logs) ∙ length-map (populated ⦃A = L⦄) logs,
    ground (arith, f),
  )

  abbrev caught : Result (Option Bool) × Post U.Db L.Db → Result (Option Bool) × Post U.Db L.Db
  caught (r, w) = elim r [ ok o ↦ (ok o, w) | err e ↦ (ok (some false), w) ]

  module _ (p : Provider) (address from : String) (l : Letter) (r : Fields) (w : Post U.Db L.Db)
      (to_address : l.to ≡ address) (here : address ≢ "")
      (found : U.find_by (entry "email" (some (str address)) end) none w.users ≡ ok (some r))
      (subscribed : is_true (get "unsubscribed" (populated ⦃A = U⦄ r)) ≡ false) where
    submit_to-after :
        (templates : Result (String × String)) (b : Bool)
        → p.submit l ≡ ok b
        → caught (submit_to U L now today templates linked p from l w)
          ≡ let (v, w') = after b p.key from l w in (ok (some v), w')
    unfolding submit_to give create_log
    submit_to-after templates false s = ground (arith, s, to_address, eq_iff l.to "", here)
    submit_to-after templates true s =
        let log =
          Repository.create ⦃A = L⦄ now []
            (field "action" (str (p.key ++ "_EMAIL_SUBMISSION"))
              (field "emitter" (str from) (field "target" (str l.to) end)))
            w.logs in
        elim (result_cases log.0) [
          | inl (q, e) ↦ ground (arith, s, e, to_address, eq_iff l.to "", here)
          | inr (q, e) ↦ ground (arith, s, e, to_address, eq_iff l.to "", here)
        ]

    pass-used_up :
        (templates : Result (String × String)) (logs : List Fields)
        → L.find_all (logs_query p.key today) none w.logs ≡ ok logs
        → ltb (length logs) p.credits ≡ false
        → pass U L now today templates linked p (some address) from l w ≡ (ok none, w)
    unfolding pass
    pass-used_up templates logs f full =
        let (ls, same, read) = logs_found templates p.key logs w f in
        ground (arith, same, read, full)

    pass-free :
        (templates : Result (String × String)) (logs : List Fields) (b : Bool)
        → L.find_all (logs_query p.key today) none w.logs ≡ ok logs
        → ltb (length logs) p.credits ≡ true
        → p.submit l ≡ ok b
        → pass U L now today templates linked p (some address) from l w
          ≡ let (v, w') = after b p.key from l w in (ok (some v), w')
    unfolding pass Repository.find_by rewrap find_logs_by_action Repository.find_all
    pass-free templates logs b f free s =
        let (ls, same, read) = logs_found templates p.key logs w f in
        ground (arith, same, read, free, found, subscribed, submit_to-after templates b s)

  abbrev pub letter_to : String → String → String → String × String → Letter
  letter_to address from subject (html, text) = record {
    to = address;
    from = from;
    subject = subject;
    html = linked html address;
    text = text;
  }

  -- Outside development, when the templates are there and both counts can be read: a mail to the address
  -- (not empty) of a user who has not unsubscribed goes through Sendinblue while fewer than 300 mails were
  -- sent through it on the day, then through Sendgrid while fewer than 100 were, and after that through
  -- none; one letter is given, the service that takes it logs it, and the answer is true when both have
  -- worked. A mail that Sendinblue does not take is not given to Sendgrid.
  pub goes_through :
      (sib sgm : Letter → Result {0} Unit) (address subject from : String) (pages : String × String)
      (r : Fields) (by_sib by_sgm : List Fields) (w : Post U.Db L.Db)
      → address ≢ ""
      → U.find_by (entry "email" (some (str address)) end) none w.users ≡ ok (some r)
      → is_true (get "unsubscribed" (populated ⦃A = U⦄ r)) ≡ false
      → L.find_all (logs_query "SENDINBLUE" today) none w.logs ≡ ok by_sib
      → L.find_all (logs_query "SENDGRID" today) none w.logs ≡ ok by_sgm
      → let l = letter_to address from subject pages in
        let (first, w₁) = after (submitted (sib l)) "SENDINBLUE" from l w in
        let (second, w₂) = after (submitted (sgm l)) "SENDGRID" from l w in
        send U L now today
          (ok pages)
          linked
          false
          (get_providers sib sgm)
          (some address)
          subject
          from
          w
        ≡ (if ltb (length by_sib) 300
            then (ok first, w₁)
            else if ltb (length by_sgm) 100
            then (ok second, w₂)
            else (ok false, w))
  unfolding send send_through get_providers
  goes_through sib sgm address subject from pages r by_sib by_sgm w here found subscribed f g =
      let l = letter_to address from subject pages in
      let one : Provider = record {
        key = "SENDINBLUE";
        credits = 300;
        submit = λ x. ok (submitted (sib x));
      } in
      let two : Provider = record {
        key = "SENDGRID";
        credits = 100;
        submit = λ x. ok (submitted (sgm x));
      } in
      elim (Bool-cases (ltb (length by_sib) 300)) [
        | inl a ↦ ground (
          arith,
          a,
          pass-free one address from l r w refl here found subscribed (ok pages) by_sib
              (submitted (sib l)) f a refl,
        )
        | inr a ↦ elim (Bool-cases (ltb (length by_sgm) 100)) [
          | inl b ↦ ground (
            arith,
            a,
            b,
            pass-used_up one address from l r w refl here found subscribed (ok pages) by_sib f a,
            pass-free two address from l r w refl here found subscribed (ok pages) by_sgm
                (submitted (sgm l)) g b refl,
          )
          | inr b ↦ ground (
            arith,
            a,
            b,
            pass-used_up one address from l r w refl here found subscribed (ok pages) by_sib f a,
            pass-used_up two address from l r w refl here found subscribed (ok pages) by_sgm g b,
          )
        ]
      ]
