-- ===== src/Handlers.antt =====
-- What the HTTP handlers share: the identity and the body of a request (auth_context.go, decode.go) and
-- the two shapes of a response (internal/httpx/error.go). What mime.ParseMediaType and the JSON
-- decoder make of a request is part of the request.
pub mod Invoices
pub mod Listing
pub mod Pages
pub mod Listed
pub mod Chains
pub mod Posted
pub mod Throws
pub mod Statements
pub mod PaymentErrors
pub mod Refusals
pub mod TransitionErrors
pub mod Transitions
pub mod RequestErrors
pub mod CreateErrors
pub mod Creation
pub mod Retry
pub mod Shown
use go_invoicing.Base.{ℕ, Bool, true, false, Option, none, some, List, if◌then◌else◌}
use go_invoicing.Base.Text.{Text, text_eq, codes}
use go_invoicing.Errors.{Error, Result, ok, err}
use go_invoicing.Http.{ErrorCode}
use go_invoicing.Admin.User.{AuthenticatedUser}
use go_invoicing.Store.{Db, Env, M}

-- The message of an error: a text of the handler's own, or what err.Error() says.
pub data Message : Type 0 where
  fixed : Message
  error_text : Error → Message

pub record Failure : Type 0 where
  pub status : ℕ
  pub code : ErrorCode
  pub message : Message

-- WriteJSON with a value, or WriteError.
pub data Response {ℓ} (A : Type ℓ) : Type ℓ where
  json : ℕ → A → Response A
  error : Failure → Response A

-- A check of a request yields a value, or has answered the request.
pub data Checked {ℓ} (A : Type ℓ) : Type ℓ where
  passed : A → Checked A
  answered : Failure → Checked A

abbrev pub fixed_failure : ℕ → ErrorCode → Failure
fixed_failure status code = record { status = status; code = code; message = Message.fixed }

abbrev pub described_failure : ℕ → ErrorCode → Error → Failure
described_failure status code e = record {
  status = status;
  code = code;
  message = Message.error_text e;
}

-- WriteInternalError, whose log entry is left aside.
abbrev pub internal_failure : Failure
internal_failure = fixed_failure 500 ErrorCode.internal_error

abbrev pub Handler {ℓ} : Type ℓ → Type ℓ
Handler A = Db → Response A × Db

module _ {ℓ κ} {A : Type ℓ} {B : Type κ} where
  -- `if !ok { return }`
  abbrev pub require : Checked A → (A → Handler B) → Handler B
  require (Checked.passed a) next db = next a db
  require (Checked.answered failure) next db = (Response.error failure, db)

  -- A call of a service, whose error is translated.
  abbrev pub serve : M A → (Error → Failure) → (A → Handler B) → Handler B
  serve call translate next db =
      let (r, db') = call db in
      elim r [ ok a ↦ next a db' | err e ↦ (Response.error (translate e), db') ]

abbrev pub respond {ℓ} : {A : Type ℓ} → ℕ → A → Handler A
respond status value db = (Response.json status value, db)

-- What the JSON decoder says of a body: why it failed, or the value and whether the input ends there.
pub data Decoded {ℓ} (A : Type ℓ) : Type ℓ where
  too_large empty unknown_field malformed : Decoded A
  value : A → Bool → Decoded A

-- A request: who the middleware let in, the {id} of the path, the Idempotency-Key headers, the
-- parameters of the query with their first values, the media type of Content-Type, if it has one, and the body.
pub record Incoming {ℓ} (A : Type ℓ) : Type ℓ where
  pub identity : Option AuthenticatedUser
  pub path_id : Text
  pub idempotency_keys : List (List ℕ)
  pub query : List (Text × Text)
  pub media_type : Option Text
  pub body : Decoded A

unfoldable pub require_authenticated_user : Option AuthenticatedUser → Checked AuthenticatedUser
require_authenticated_user (some user) = Checked.passed user
require_authenticated_user none = Checked.answered (fixed_failure 401 ErrorCode.unauthorized)

unfoldable pub has_json_content_type : Option Text → Bool
has_json_content_type none = false
has_json_content_type (some media_type) = text_eq media_type (codes "application/json")

module _ {ℓ} {A : Type ℓ} where
  abbrev pub decoded_value : Decoded A → Checked A
  decoded_value Decoded.too_large = Checked.answered (fixed_failure 413 ErrorCode.request_too_large)
  decoded_value (Decoded.value a true) = Checked.passed a
  decoded_value _ = Checked.answered (fixed_failure 400 ErrorCode.invalid_request)

  unfoldable pub decode_json : Option Text → Decoded A → Checked A
  decode_json media_type body =
      if has_json_content_type media_type
      then decoded_value body
      else Checked.answered (fixed_failure 415 ErrorCode.unsupported_media_type)
