-- ===== src/Mailer/Tests.antt =====
-- Examples of mails.
use startup_api.Base.{◌≡◌, refl, arith, eq_iff, false, some, [], ◌∷◌}
use startup_api.Base.Value.{str, num, Fields, end, field, get, put, remove}
use startup_api.Base.Exec.{plain, literal, ok, err}
use startup_api.Repository.{populated, with_id}
use startup_api.Repository.Memory.{Records, memory, find, matches, same, id_text}
use startup_api.Mailer.{Post, send}
use startup_api.Mailer.Services.{get_providers, goes_through, letter_to}

abbrev ada : Fields
ada = field "email" (str "ada@a") (field "_id" (num 0) end)

abbrev post : Post Records Records
post = record { users = ada ∷ []; logs = []; given = [] }

-- The call of Sendinblue throws: the letter was given to it, and Sendgrid is not asked.
goes_through_example :
    send memory memory 5 0
      (ok ("html", "text"))
      (λ p a. p)
      false
      (get_providers (λ l. err (plain (literal "Unauthorized"))) (λ l. ok tt))
      (some "ada@a")
      "hello"
      "admin@a"
      post
    ≡ (
      ok false,
      record post {
        given =
            letter_to memory memory 5 0 (λ p a. p) "ada@a" "admin@a" "hello" ("html", "text") ∷ [];
      },
    )
unfolding find matches same id_text populated with_id get put remove
goes_through_example =
    goes_through memory memory 5 0 (λ p a. p) (λ l. err (plain (literal "Unauthorized")))
      (λ l. ok tt) "ada@a" "hello" "admin@a" ("html", "text") ada [] [] post
      (ground (arith, eq_iff "ada@a" "")) refl refl refl refl
