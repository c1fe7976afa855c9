-- ===== src/Tests/Text.antt =====
-- Runs of main/json.c.
use airu_v2_fw.Base.{
  ℕ, true, List, [], ◌∷◌, none, some, ◌≡◌, refl, replicate, ◌++◌, codes, drop, length,
}
use airu_v2_fw.Base.Memory.{store, copy}
use airu_v2_fw.Json.{json_print_string}
use airu_v2_fw.Json.Escape.{quoted}
use airu_v2_fw.Json.Writes.{json_print_string_lem}
use airu_v2_fw.Json.Decode.{read_string, read_string-json_print_string}

-- A quote, a letter and the bell character.
abbrev bell : List ℕ
bell = b'"' ∷ b'a' ∷ 7 ∷ []

abbrev page : List ℕ
page = replicate 13 1

abbrev printed : List ℕ
printed = codes "\"\\\"a\\u0007\"" ++ (0 ∷ 1 ∷ [])

bell_prints : json_print_string (some bell) (some page) ≡ some (true, some printed)
unfolding json_print_string store copy
bell_prints = refl

bell_overflows : json_print_string (some bell) (some (replicate 11 1)) ≡ none
unfolding json_print_string store copy
bell_overflows = refl

read_string-json_print_string_example :
    read_string 4 (drop 1 printed) ≡ some (bell, 0 ∷ drop (length (quoted bell)) page)
read_string-json_print_string_example = read_string-json_print_string bell page printed bell_prints

json_print_string_lem_example :
    json_print_string (some bell) (some page)
    ≡ some (true, some (quoted bell ++ drop (length (quoted bell)) page))
unfolding quoted
json_print_string_lem_example = json_print_string_lem bell page
