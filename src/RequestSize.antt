-- ===== src/RequestSize.antt =====
-- `RequestSizeLimitMiddleware` of backend/web/request_size_middleware.py. The application behind it
-- is any ASGI application that answers once, at its end; reading a number from a text (`int`) and the lower case of a header's
-- name are Python's.
pub mod Bound
use enterprise_fast_api_boil.Base.{
  ℕ, suc, ◌+◌, String, Bool, true, false, Option, none, some, List, [], ◌∷◌, length, ltb, ◌=s◌,
  if◌then◌else◌,
}
use enterprise_fast_api_boil.Base.Int.{ℤ, pos, negsuc}
use enterprise_fast_api_boil.Base.Outcome.{Error}

-- A message from the server to the application; the body is a list of bytes.
pub data Message : Type 0 where
  request : List ℕ → Message
  disconnect : Message

-- What `receive` does for the application: it returns a message, or raises `_BodyTooLarge`.
pub data Received : Type 0 where
  message : Message → Received
  body_too_large : Received

-- An application: it answers with a status, raises an error of its own, or awaits a message and
-- goes on with it, or with what it does about `_BodyTooLarge`. Only after it met that exception, which
-- is what the flag says, can it let it pass.
pub data App : Bool → Type 0 where
  respond : {met : Bool} → ℕ → App met
  fails : {met : Bool} → Error → App met
  receives : {met : Bool} → (Message → App met) → App true → App met
  too_large : App true

-- What the client gets: a status, or the error that the server makes of an exception.
pub data Answer : Type 0 where
  status : ℕ → Answer
  raised : Error → Answer

-- An HTTP request, and any other connection.
pub data Scope : Type 0 where
  http_scope : List (String × String) → Scope
  other_scope : Scope

abbrev pub body_length : Message → ℕ
body_length (request body) = length body
body_length disconnect = 0

-- The count of `limited_receive`, and what it returns for a message.
abbrev pub limited_receive : ℕ → ℕ → Message → Received × ℕ
limited_receive max_size received disconnect = (message disconnect, received)
limited_receive max_size received (request body) =
    if ltb max_size (received + length body)
    then (body_too_large, received + length body)
    else (message (request body), received + length body)

-- The application behind `limited_receive`: the answer, and what it received. `next` is the number
-- of messages that the server has handed out.
unfoldable pub run_limited :
    {met : Bool} → ℕ → ℕ → (ℕ → Message) → ℕ → App met → Answer × List Received
run_limited max_size received messages next (respond code) = (status code, [])
run_limited max_size received messages next (fails e) = (raised e, [])
run_limited max_size received messages next too_large = (status 413, [])
run_limited max_size received messages next (receives k handler) =
    elim (limited_receive max_size received (messages next)).0 [
      | message m ↦
          let (answer, seen) =
            run_limited max_size (limited_receive max_size received (messages next)).1 messages
              (suc next) (k m) in
          (answer, message m ∷ seen)
      | body_too_large ↦
          let (answer, seen) =
            run_limited max_size (limited_receive max_size received (messages next)).1 messages
              (suc next) handler in
          (answer, body_too_large ∷ seen)
    ]

-- The application without the middleware
unfoldable pub run_plain : (ℕ → Message) → ℕ → App false → Answer × List Received
run_plain messages next (respond code) = (status code, [])
run_plain messages next (fails e) = (raised e, [])
run_plain messages next (receives k handler) =
    let (answer, seen) = run_plain messages (suc next) (k (messages next)) in
    (answer, message (messages next) ∷ seen)

module _ (lower : String → String) (int : String → Option ℤ) where
  abbrev pub exceeds : ℕ → Option ℤ → Bool
  exceeds max_size none = false
  exceeds max_size (some (pos n)) = ltb max_size n
  exceeds max_size (some (negsuc n)) = false

  -- The loop over the headers: the first `content-length` decides.
  unfoldable pub declares_too_much : ℕ → List (String × String) → Bool
  declares_too_much max_size [] = false
  declares_too_much max_size ((name, value) ∷ headers) =
      if lower name =s "content-length"
      then exceeds max_size (int value)
      else declares_too_much max_size headers

  -- `__call__`
  unfoldable pub call : ℕ → Scope → (ℕ → Message) → App false → Answer × List Received
  unfolding run_limited run_plain declares_too_much
  call max_size other_scope messages app = run_plain messages 0 app
  call max_size (http_scope headers) messages app =
      if declares_too_much max_size headers
      then (status 413, [])
      else run_limited max_size 0 messages 0 app
