-- ===== src/Api/Complete.antt =====
-- All requests of web/src/lib/api.ts, the link of a download with them.
use veckomenyn.Base.{◌≢◌, none, List, [], ◌∷◌, Text}
use veckomenyn.Api.Http.{Request, get_method}
use veckomenyn.Api.Household.{backup_download_url}
use veckomenyn.Api.Calls.{Call, exchange}
use veckomenyn.Api.Server.{Handler, handle_download_backup}
use veckomenyn.Api.Contract.{IsNamed, handlers_of}

pub data Use : Type 0 where
  -- a function of the client is called
  called : Call → Use
  -- the link that `backupDownloadURL` makes is followed
  followed : (filename : Text) → Use

abbrev pub request_of : (N : Type 0) → (Text → Text) → Use → Request
request_of N encode (called c) = (exchange N encode c).request
request_of N encode (followed filename) = record {
  method = get_method;
  path = backup_download_url encode filename;
  body = none;
}

abbrev pub meant_for : Use → List Handler
meant_for (called c) = handlers_of c
meant_for (followed filename) = handle_download_backup ∷ []

-- The names that stand in a path are not empty; `current` is no week.
abbrev pub HasNames : (Text → Text) → Use → Type 0
HasNames encode (called c) = IsNamed encode c
HasNames encode (followed filename) = filename ≢ []
