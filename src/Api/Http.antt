-- ===== src/Api/Http.antt =====
-- What the functions of web/src/lib/api.ts share: a request, a response and what comes of it.
-- `fetch`, `JSON` and `encodeURIComponent` are not part of the program: a request holds the object that
-- is given to `JSON.stringify`, a response what its `json()` returns or throws. The types that the code
-- casts a response to are not tested by it; `Response A` is a response whose JSON has the type A.
use veckomenyn.Base.{
  ℕ, Bool, not, ◌&&◌, ltb, leb, Option, none, some, [], ◌∷◌, ◌++◌, Text, text, show, if◌then◌else◌,
}
use veckomenyn.Base.Assoc.{Assoc}

pub data ℤ : Type 0 where
  pos negsuc : ℕ → ℤ

-- A value of an object that is sent.
pub data Value : Type 0 where
  null : Value
  boolean : Bool → Value
  number : ℤ → Value
  string : Text → Value
  strings : Assoc Text → Value

abbrev pub Body : Type 0
Body = Assoc Value

-- A property of an object. `JSON.stringify` leaves one out whose value is `undefined`.
abbrev pub field : {A : Type 0} → Text → (A → Value) → Option A → Body
field name f none = []
field name f (some x) = (name, f x) ∷ []

abbrev pub nullable : {A : Type 0} → (A → Value) → Option A → Value
nullable f none = null
nullable f (some x) = f x

pub data Method : Type 0 where
  get_method post_method put_method patch_method delete_method : Method

-- A body always comes with the header `Content-Type: application/json`.
pub record Request : Type 0 where
  pub method : Method
  pub path : Text
  pub body : Option Body

pub data Outcome (A : Type 0) : Type 0 where
  returns : A → Outcome A
  throws : Text → Outcome A

pub record Response (A : Type 0) : Type 0 where
  pub status : ℕ
  pub status_text : Text
  pub body : Text
  pub json : Outcome A

-- A function of the client: what it sends, and what it makes of the response.
pub record Exchange (A B : Type 0) : Type 0 where
  pub request : Request
  pub receive : Response A → Outcome B

-- What a function without a result returns.
pub data Done : Type 0 where
  done : Done

module _ {A : Type 0} where
  abbrev pub ok : Response A → Bool
  ok r = leb 200 r.status && ltb r.status 300

  -- `${label}: ${r.status}`
  abbrev pub with_status : Text → Response A → Text
  with_status label r = label ++ (text ": " ++ show r.status)

  -- `${label}: ${r.status} ${await r.text()}`
  abbrev pub with_text : Text → Response A → Text
  with_text label r = label ++ (text ": " ++ (show r.status ++ (text " " ++ r.body)))

  -- `await r.text()`
  abbrev pub only_text : Response A → Text
  only_text r = r.body

  -- `if (!r.ok) throw new Error(...); return await r.json();`
  abbrev pub json_or : (Response A → Text) → Response A → Outcome A
  json_or message r = if not (ok r) then throws (message r) else r.json

  -- `if (!r.ok) throw new Error(...);`
  abbrev pub done_or : (Response A → Text) → Response A → Outcome Done
  done_or message r = if not (ok r) then throws (message r) else returns done

  abbrev pub get : {B : Type 0} → Text → (Response A → Outcome B) → Exchange A B
  get path receive = record {
    request = record { method = get_method; path = path; body = none };
    receive = receive;
  }

  abbrev pub send :
      {B : Type 0} → Method → Text → Option Body → (Response A → Outcome B) → Exchange A B
  send method path body receive = record {
    request = record { method = method; path = path; body = body };
    receive = receive;
  }

abbrev pub map_outcome : {A B : Type 0} → (A → B) → Outcome A → Outcome B
map_outcome f (returns x) = returns (f x)
map_outcome f (throws e) = throws e
