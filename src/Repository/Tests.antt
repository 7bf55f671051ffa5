-- ===== src/Repository/Tests.antt =====
-- Examples of the repository, on the adapter in memory.
use startup_api.Base.{◌≡◌, refl, [], ◌∷◌, arith, eq_iff}
use startup_api.Base.Value.{str, num, Fields, end, field, get, put}
use startup_api.Base.Exec.{message, bad_request, ok, err}
use startup_api.Repository.Memory.{memory, insert, find, find-insert}
use startup_api.Repository.{populated, same_key, stamped, create}
use startup_api.Repository.Laws.{created_once}

abbrev ada : Fields
ada = field "email" (str "ada@a") (field "password" (str "x") end)

created_once_example :
    (create 5 ("email" ∷ []) ada [] ≡ (
      ok (populated (put "_id" (num 0) (stamped 5 ada))),
      put "_id" (num 0) (stamped 5 ada) ∷ [],
    ))
    × (create 9 ("email" ∷ []) ada (put "_id" (num 0) (stamped 5 ada) ∷ [])
        ≡ (err (bad_request (message (same_key "email"))), put "_id" (num 0) (stamped 5 ada) ∷ []))
unfolding find insert get
created_once_example =
    created_once (λ k v r q d d' h n g. find-insert k v r q d d' h n g) 5 9 "email" ada ada
      (put "_id" (num 0) (stamped 5 ada)) (str "ada@a") [] (put "_id" (num 0) (stamped 5 ada) ∷ [])
      (ground (arith, eq_iff "email" "_id")) (ground (arith, eq_iff "email" "createdAt"))
      (ground (arith, eq_iff "email" "updatedAt")) refl refl refl refl refl
