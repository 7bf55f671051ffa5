-- ===== src/Places.antt =====
-- Countries and their cities: src/providers/places/PlaceHelper.ts, and places/read/ReadPlaceUseCase.ts
-- with places/PlacesController.ts. The countries are those of a data file, the cities those of a package.
use Prim.Native.String.{◌++◌, [] as empty, ◌∷◌ as ◌then◌}
use Prim.Native.Char.{code}
use startup_api.Base.{
  ℕ, ◌+◌, ap, ◌∙◌, String, ◌≡◌, ◌≢◌, Bool, false, Option, none, some, List, str_eq, find_first,
  if◌then◌else◌, leb, ◌==◌, arith,
}
use startup_api.Base.Exec.{literal, not_found, Result, ok, err}

-- `s.length`: a character above 65535 counts twice.
unfoldable pub js_length : String → ℕ
js_length empty = 0
js_length (c then s) = (if leb 65536 (code c) then 2 else 1) + js_length s

pub record Country : Type 0 where
  pub code : String
  pub name : String

pub record CountryCities : Type 0 where
  pub country : Country
  pub cities : List String

infixl 5 ◌>>=◌
abbrev ◌>>=◌ : {R S : Type 0} → Result R → (R → Result S) → Result S
ok r >>= f = f r
err e >>= f = err e

abbrev is_code : String → Bool
is_code s = js_length s == 2

-- `upper` is `toUpperCase`.
module _ (countries : List Country) (cities_of : String → Option (List String))
    (upper : String → String) where
  unfoldable pub get_country : String → Result Country
  get_country country_code =
      elim (find_first (λ (c : Country). str_eq c.code country_code) countries) [
        | none ↦
            err
              (not_found (literal ("Country not found for country code '" ++ country_code ++ "'")))
        | some country ↦ ok country
      ]

  unfoldable pub get_cities : String → Result (List String)
  get_cities country = elim (cities_of country) [
    | none ↦ err (not_found (literal ("Cities not found for country '" ++ country ++ "'")))
    | some cities ↦ ok cities
  ]

  -- What is missing has been thrown for by then.
  unfoldable pub read_country : String → Result CountryCities
  unfolding get_country get_cities
  read_country country_code = do
    country ← get_country country_code
    cities ← get_cities country.name
    ok (record { country = country; cities = cities })

  unfoldable pub read_cities_by_country_code : String → Result (List String)
  unfolding get_country get_cities
  read_cities_by_country_code country_code = do
    country ← get_country country_code
    get_cities country.name

  unfoldable pub read_cities : String → Result (List String)
  unfolding read_cities_by_country_code get_cities
  read_cities country_name_or_code =
      if is_code country_name_or_code
      then read_cities_by_country_code country_name_or_code
      else get_cities country_name_or_code

  -- The controller.
  unfoldable pub country : String → Result CountryCities
  unfolding read_country
  country country_code = read_country (upper country_code)

  unfoldable pub cities : String → Result (List String)
  unfolding read_cities
  cities country_name_or_code =
      read_cities
        (if is_code country_name_or_code then upper country_name_or_code else country_name_or_code)

  abbrev cities_in : Result CountryCities → Result (List String)
  cities_in (ok r) = ok r.cities
  cities_in (err e) = err e

  by_code : (s : String) → read_cities_by_country_code s ≡ cities_in (read_country s)
  unfolding read_cities_by_country_code read_country get_country
  by_code s = ground arith

  coded :
      (s : String)
      → js_length s ≡ 2
      → js_length (upper s) ≡ 2
      → cities s ≡ read_cities_by_country_code (upper s)
  unfolding cities read_cities
  coded s n m = ground (arith, n, m)

  cities_of_code :
      (s : String) (r : CountryCities)
      → js_length s ≡ 2
      → js_length (upper s) ≡ 2
      → read_country (upper s) ≡ ok r
      → cities s ≡ ok r.cities
  cities_of_code s r n m h = coded s n m ∙ by_code (upper s) ∙ ap cities_in h

  by_name :
      (s : String) (r : CountryCities)
      → read_country s ≡ ok r
      → get_cities r.country.name ≡ ok r.cities
  unfolding read_country get_country
  by_name s r h = ground (arith, h)

  named : (s : String) → is_code s ≡ false → cities s ≡ get_cities s
  unfolding cities read_cities
  named s h = ground (arith, h)

  -- Asking for the cities by the code of a country, in whatever case, gives those that the country
  -- itself comes with, or the same error; asking by the country's name gives the same cities.
  -- The conditions: the upper case of the code has two letters too, and does not change if it is taken
  -- again, the country is found, and its name is not as short as a code.
  cities_agree :
      (s : String) (r : CountryCities)
      → js_length s ≡ 2
      → js_length (upper s) ≡ 2
      → upper (upper s) ≡ upper s
      → country s ≡ ok r
      → js_length r.country.name ≢ 2
      → (cities s ≡ ok r.cities)
        × (cities (upper s) ≡ ok r.cities)
        × (cities r.country.name ≡ ok r.cities)
  unfolding country
  cities_agree s r n m u h l = (
    cities_of_code s r n m h,
    cities_of_code (upper s) r m (ap js_length u ∙ m) (ap read_country u ∙ h),
    named r.country.name (ground (arith, l)) ∙ by_name (upper s) r h,
  )
