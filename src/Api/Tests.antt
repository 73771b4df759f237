-- ===== src/Api/Tests.antt =====
-- The calls of web/src/lib/api.ts on concrete requests and responses.
use veckomenyn.Base.{ℕ, ◌≡◌, false, Text, text, [], ◌∷◌, ◌==◌, if◌then◌else◌}
use veckomenyn.Api.Http.{Response, throws, Done}
use veckomenyn.Api.Calls.{exchange, on_delete_week}
use veckomenyn.Api.Errors.{is_failed, is_failed-receive}

-- An encoder that escapes slashes and leaves all else.
abbrev escape : Text → Text
escape [] = []
escape (c ∷ s) = if c == b'/' then b'%' ∷ b'2' ∷ b'F' ∷ escape s else c ∷ escape s

abbrev missing : Response Done
missing = record {
  status = 404;
  status_text = text "Not Found";
  body = text "not found";
  json = throws (text "no JSON");
}

is_failed-receive_example :
    is_failed ((exchange ℕ escape (on_delete_week 7)).receive missing) ≡ false
is_failed-receive_example = is_failed-receive ℕ escape (on_delete_week 7) missing
