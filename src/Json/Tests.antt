-- ===== src/Json/Tests.antt =====
-- Documents that are read, and texts that are none.
use audio_service.Base.{◌≡◌, refl, true, false, some, none, [], ◌∷◌}
use audio_service.Base.Text.{codes}
use audio_service.Json.{bool, num, str, arr, obj, no_items, item, no_fields, field}
use audio_service.Json.Parse.{parse_json}
use audio_service.Json.Number.{is_valid_number}

number_tests : (is_valid_number (codes "-10.5e+3") ≡ true) × (is_valid_number (codes "01") ≡ false)
unfolding is_valid_number
number_tests = (refl, refl)

document :
    parse_json (codes " {\"a\": [1, true, {}], \"b\":\"x\\u00e9\\n\"} ")
    ≡ some (
        obj (
          field
            (codes "a")
            (arr (item (num (codes "1")) (item (bool true) (item (obj no_fields) no_items))))
            (field (codes "b") (str (b'x' ∷ 0xe9 ∷ 10 ∷ [])) no_fields)))
unfolding parse_json
document = refl

trailing_comma : parse_json (codes "[1,]") ≡ none
unfolding parse_json
trailing_comma = refl
