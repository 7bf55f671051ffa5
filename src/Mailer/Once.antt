-- ===== src/Mailer/Once.antt =====
-- How many letters one mail makes.
use startup_api.Base.{
  ℕ, suc, ◌+◌, ◌≤◌, String, ◌≡◌, refl, Bool, true, false, Option, none, some, List, [], ◌∷◌,
  if◌then◌else◌, length, arith, inl, inr, Bool-cases, or_else,
}
use startup_api.Base.Value.{Fields, get}
use startup_api.Base.Exec.{Result, ok, err}
use startup_api.Repository.Database.{Adapter}
use startup_api.Repository
use startup_api.Accounts.Premium.{is_true}
use startup_api.Mailer.{
  Letter, Provider, Post, action_of, create_log, find_logs_by_action, give, submit_to, to_user,
  pass, send_through, send, address_filter,
}

module _ (U L : Adapter) (now today : ℕ) (templates : Result (String × String))
    (linked : String → String → String) where
  abbrev W : Type 0
  W = Post U.Db L.Db

  abbrev goes_on : Result (Option Bool) → Bool
  goes_on (ok none) = true
  goes_on (ok (some b)) = false
  goes_on (err e) = false

  -- Nothing was given where the loop goes on, and one letter at most where it ends.
  abbrev Given : W → Result (Option Bool) × W → Type 0
  Given w (r, w') = length w'.given ≤ length w.given + (if goes_on r then 0 else 1)

  submit_to_lem :
      (p : Provider) (from : String) (l : Letter) (w : W)
      → Given w (submit_to U L now today templates linked p from l w)
  unfolding submit_to give create_log
  submit_to_lem p from l w = ground (arith, p.submit l)

  to_user_lem :
      (p : Provider) (from : String) (l : Letter) (u : Option Fields) (w : W)
      → Given w (to_user U L now today templates linked p from l u w)
  to_user_lem p from l none w = omega arith
  to_user_lem p from l (some u) w = elim (Bool-cases (is_true (get "unsubscribed" u))) [
    | inl e ↦ ground (arith, e)
    | inr e ↦ ground (arith, e, submit_to_lem p from l w)
  ]

  abbrev logs_of : Provider → W → Result (List Fields) × W
  logs_of p w = find_logs_by_action U L now today templates linked (action_of p) today w

  abbrev user_of : Option String → W → Result (Option Fields) × U.Db
  user_of to w =
      Repository.find_by ⦃A = U⦄ (address_filter U L now today templates linked to) none w.users

  pass_at :
      (p : Provider) (to : Option String) (from : String) (l : Letter) (logs : Result (List Fields))
      (user : Result (Option Fields)) (d : U.Db) (w w₁ : W)
      → logs_of p w ≡ (logs, w₁)
      → w₁.given ≡ w.given
      → user_of to w₁ ≡ (user, d)
      → Given w (pass U L now today templates linked p to from l w)
  unfolding pass
  pass_at p to from l (err e) user d w w₁ f g h = ground (arith, f, g)
  pass_at p to from l (ok logs) (err e) d w w₁ f g h = ground (arith, f, g, h)
  pass_at p to from l (ok logs) (ok u) d w w₁ f g h =
      ground (arith, f, g, h, to_user_lem p from l u (record w₁ { users = d }))

  pass_lem :
      (p : Provider) (to : Option String) (from : String) (l : Letter) (w : W)
      → Given w (pass U L now today templates linked p to from l w)
  unfolding find_logs_by_action
  pass_lem p to from l w = pass_at p to from l _ _ (user_of to (logs_of p w).1).1 w _ refl refl refl

  send_through_lem :
      (ps : List Provider) (to : Option String) (from : String) (l : Letter) (w : W)
      → length (send_through U L now today templates linked ps to from l w).1.given
        ≤ suc (length w.given)
  unfolding send_through
  send_through_lem [] to from l w = omega arith
  send_through_lem (p ∷ ps) to from l w = ground (
    arith,
    pass_lem p to from l w,
    send_through_lem ps to from l (pass U L now today templates linked p to from l w).1,
  )

  letter_at :
      (o : Result (String × String)) (ps : List Provider) (to : Option String)
      (subject from : String) (w : W)
      → templates ≡ o
      → length (send U L now today templates linked false ps to subject from w).1.given
        ≤ suc (length w.given)
  unfolding send
  letter_at (err e) ps to subject from w t = ground (arith, t)
  letter_at (ok (html, text)) ps to subject from w t =
      let address = or_else to "" in
      let letter : Letter = record {
        to = address;
        from = from;
        subject = subject;
        html = linked html address;
        text = text;
      } in
      ground (arith, t, send_through_lem ps to from letter w)

  -- Whatever services there are, and whatever they and the databases answer: for a mail, one letter at
  -- most is given to a service.
  one_letter :
      (development : Bool) (ps : List Provider) (to : Option String) (subject from : String) (w : W)
      → length (send U L now today templates linked development ps to subject from w).1.given
        ≤ suc (length w.given)
  unfolding send
  one_letter true ps to subject from w = omega arith
  one_letter false ps to subject from w = letter_at templates ps to subject from w refl
