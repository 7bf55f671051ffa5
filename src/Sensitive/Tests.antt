-- ===== src/Sensitive/Tests.antt =====
-- Examples of filtering.
use startup_api.Base.{String, ◌≡◌, true, some, List, [], ◌∷◌}
use startup_api.Base.Value.{str, num, arr, obj, nil, cons, Fields, end, field}
use startup_api.Sensitive.{json_body}
use startup_api.Sensitive.Clean.{clean?, json_body-clean}

abbrev user : Fields
user =
    field "password" (str "x") (field "tags" (arr (cons (obj (field "salt" (num 1) end)) nil)) end)

abbrev hidden : List String
hidden = "password" ∷ "salt" ∷ []

json_body-clean_example : clean? hidden (json_body hidden (some (obj user))) ≡ true
json_body-clean_example = json_body-clean hidden (some (obj user))
