-- ===== src/Server/Answers.antt =====
-- main/http_server_if.c: how many answers the web server writes to a request.
use airu_v2_fw.Base.{ℕ, ◌+◌, List, [], ◌∷◌, Option, none, some, if◌then◌else◌}
use airu_v2_fw.Server.{
  Effect, ServerEnv, answer, http_server_get_header, Route, get_register, post_connect,
  post_register, is_too_long, name_header, email_header, hidden_header,
}

abbrev is_answer : Effect → ℕ
is_answer (answer _) = 1
is_answer _ = 0

pub count_answers : List Effect → ℕ
count_answers [] = 0
count_answers (e ∷ es) = is_answer e + count_answers es

-- How many answers a result has.
abbrev pub answers : Option (List Effect) → Option ℕ
answers none = none
answers (some effects) = some (count_answers effects)

-- A registration whose name or address is too long is answered, and then copied all the same or, with
-- a header missing, answered again.
abbrev registration_answers : (name email hidden : Option (List ℕ)) → Option ℕ
registration_answers (some name) (some email) (some hidden) =
    if is_too_long (some name) (some email) then none else some 1
registration_answers name email hidden = some (if is_too_long name email then 2 else 1)

-- How many answers a request gets.
unfoldable pub expected : ServerEnv → Route → Option (List ℕ) → Option ℕ
expected e get_register headers = some (if e.lockable then 1 else 0)
expected e post_connect none = none
expected e post_register none = none
expected e post_register (some headers) =
    registration_answers (http_server_get_header headers name_header)
      (http_server_get_header headers email_header) (http_server_get_header headers hidden_header)
expected e _ _ = some 1
