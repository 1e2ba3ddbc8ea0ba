-- ===== src/Handlers/Posted.antt =====
-- What CreatePayment's handler reads from a request before it calls the service.
use go_invoicing.Base.{
  Bool, ℕ, true, false, ◌≡◌, ◌⊎◌, ◌≤◌, refl, inl, inr, arith, none, some, Option, Bool-cases,
}
use go_invoicing.Base.Text.{Text}
use go_invoicing.Errors.{Error}
use go_invoicing.Admin.{Uuid}
use go_invoicing.Admin.User.{AuthenticatedUser}
use go_invoicing.Http.{Reply, ErrorCode}
use go_invoicing.Invoice.{CreatePaymentRequest}
use go_invoicing.Invoice.Responses.{
  Formats, CreatePaymentHttpRequest, to_create_payment_request, read_idempotency_key,
}
use go_invoicing.Store.{Db, Env}
use go_invoicing.Service.Pay.{create_payment}
use go_invoicing.Handlers.{
  fixed_failure, described_failure, Message, Failure, Response, Checked, Decoded, Incoming,
  require_authenticated_user, decode_json, decoded_value, has_json_content_type, serve,
}
use go_invoicing.Handlers.Chains.{Checked-cases}
use go_invoicing.Handlers.Invoices.{
  parsed_id, checked, dated_request, payment_failure, answer_payment, handle_create_payment,
}

-- The errors whose text repeats what a database call or an encoder said.
unfoldable pub carries_detail : Error → Bool
carries_detail (Error.internal site) = true
carries_detail Error.invoice_snapshot_data_unavailable = true
carries_detail Error.template_snapshot_marshal = true
carries_detail Error.session_token_random = true
carries_detail Error.password_hash_random = true
carries_detail _ = false

-- A message of the handler's own, or the text of an error without such details.
pub data IsSafe : Message → Type 0 where
  own_text : IsSafe Message.fixed
  sentinel : (e : Error) → carries_detail e ≡ false → IsSafe (Message.error_text e)

-- A 4xx status, and a message that is safe to show.
pub record IsClientMistake (f : Failure) : Type 0 where
  pub from_400 : 400 ≤ f.status
  pub to_499 : f.status ≤ 499
  pub safe : IsSafe f.message

-- The parts of a request that passed every check.
pub record Posted (env : Env) (r : Incoming CreatePaymentHttpRequest) : Type 0 where
  pub user : AuthenticatedUser
  pub id : Uuid
  pub key : Text
  pub body : CreatePaymentHttpRequest
  pub request : CreatePaymentRequest
  pub identified : require_authenticated_user r.identity ≡ Checked.passed user
  pub addressed : parsed_id (env.parse_uuid r.path_id) ≡ Checked.passed id
  pub keyed : checked (read_idempotency_key r.idempotency_keys) ≡ Checked.passed key
  pub decoded : decode_json r.media_type r.body ≡ Checked.passed body
  pub dated : dated_request (to_create_payment_request body key) ≡ Checked.passed request

-- Such a request is served.
pub posted_served :
    (env : Env) (formats : Formats) (r : Incoming CreatePaymentHttpRequest) (db : Db)
    (p : Posted env r)
    → handle_create_payment env formats r db
      ≡ serve
          (create_payment env p.user.organisation_id p.id p.request)
          payment_failure
          (answer_payment formats)
          db
unfolding handle_create_payment
posted_served env formats r db p = rw (p.identified, p.addressed, p.keyed, p.decoded, p.dated) refl

pub own_mistake :
    (n : ℕ) (code : ErrorCode) → 400 ≤ n → n ≤ 499 → IsClientMistake (fixed_failure n code)
own_mistake n code a b = record { from_400 = a; to_499 = b; safe = IsSafe.own_text }

pub described_mistake :
    (n : ℕ) (code : ErrorCode) (e : Error)
    → 400 ≤ n
    → n ≤ 499
    → carries_detail e ≡ false
    → IsClientMistake (described_failure n code e)
described_mistake n code e a b plain = record {
  from_400 = a;
  to_499 = b;
  safe = IsSafe.sentinel e plain;
}

-- A check that answers with a fixed text and such a status.
answered_mistake {ℓ} :
    {A : Type ℓ} (n : ℕ) (code : ErrorCode) (f : Failure)
    → 400 ≤ n
    → n ≤ 499
    → ◌≡◌ {A = Checked A} (Checked.answered (fixed_failure n code)) (Checked.answered f)
    → IsClientMistake f
answered_mistake n code f a b h =
    let e : fixed_failure n code ≡ f = ground arith in rw (← e) (own_mistake n code a b)

pub identity_mistake :
    (u : Option AuthenticatedUser) (f : Failure)
    → require_authenticated_user u ≡ Checked.answered f
    → IsClientMistake f
unfolding require_authenticated_user
identity_mistake none f h = answered_mistake 401 _ f (omega arith) (omega arith) h
identity_mistake (some u) f h = absurd (ground arith)

pub id_mistake :
    (id : Option Uuid) (f : Failure) → parsed_id id ≡ Checked.answered f → IsClientMistake f
id_mistake none f h = answered_mistake 400 _ f (omega arith) (omega arith) h
id_mistake (some id) f h = absurd (ground arith)

key_mistake : (k : Reply Text) (f : Failure) → checked k ≡ Checked.answered f → IsClientMistake f
key_mistake (Reply.refused code) f h = answered_mistake 400 code f (omega arith) (omega arith) h
key_mistake (Reply.accepted key) f h = absurd (ground arith)

module _ {ℓ} {A : Type ℓ} where
  value_mistake :
      (b : Decoded A) (f : Failure) → decoded_value b ≡ Checked.answered f → IsClientMistake f
  value_mistake Decoded.too_large f h = answered_mistake 413 _ f (omega arith) (omega arith) h
  value_mistake Decoded.empty f h = answered_mistake 400 _ f (omega arith) (omega arith) h
  value_mistake Decoded.unknown_field f h = answered_mistake 400 _ f (omega arith) (omega arith) h
  value_mistake Decoded.malformed f h = answered_mistake 400 _ f (omega arith) (omega arith) h
  value_mistake (Decoded.value a false) f h = answered_mistake 400 _ f (omega arith) (omega arith) h
  value_mistake (Decoded.value a true) f h = absurd (ground arith)

  pub body_mistake :
      (media_type : Option Text) (b : Decoded A) (f : Failure)
      → decode_json media_type b ≡ Checked.answered f
      → IsClientMistake f
  unfolding decode_json
  body_mistake media_type b f h = elim (Bool-cases (has_json_content_type media_type)) [
    | inl yes' ↦ value_mistake b f (rw yes' at h)
    | inr no' ↦ answered_mistake 415 _ f (omega arith) (omega arith) (rw no' at h)
  ]

date_mistake :
    (q : Option CreatePaymentRequest) (f : Failure)
    → dated_request q ≡ Checked.answered f
    → IsClientMistake f
date_mistake none f h = answered_mistake 400 _ f (omega arith) (omega arith) h
date_mistake (some q) f h = absurd (ground arith)

-- A request passes every check, or is answered as a mistake of the client's.
pub Posted-cases :
    (env : Env) (formats : Formats) (r : Incoming CreatePaymentHttpRequest) (db : Db)
    → Posted env r
      ⊎ ((f : Failure) × IsClientMistake f
          × (handle_create_payment env formats r db ≡ (Response.error f, db)))
unfolding handle_create_payment
Posted-cases env formats r db = elim (Checked-cases (require_authenticated_user r.identity)) [
  | inr (f, e) ↦ inr (f, identity_mistake r.identity f e, rw e refl)
  | inl (user, e₁) ↦ elim (Checked-cases (parsed_id (env.parse_uuid r.path_id))) [
    | inr (f, e) ↦ inr (f, id_mistake (env.parse_uuid r.path_id) f e, rw (e₁, e) refl)
    | inl (id, e₂) ↦ elim (Checked-cases (checked (read_idempotency_key r.idempotency_keys))) [
      | inr (f, e) ↦
          inr (f, key_mistake (read_idempotency_key r.idempotency_keys) f e, rw (e₁, e₂, e) refl)
      | inl (key, e₃) ↦ elim (Checked-cases (decode_json r.media_type r.body)) [
        | inr (f, e) ↦ inr (f, body_mistake r.media_type r.body f e, rw (e₁, e₂, e₃, e) refl)
        | inl (body, e₄) ↦
            elim (Checked-cases (dated_request (to_create_payment_request body key))) [
              | inr (f, e) ↦ inr (
                f,
                date_mistake (to_create_payment_request body key) f e,
                rw (e₁, e₂, e₃, e₄, e) refl,
              )
              | inl (q, e₅) ↦ inl (record {
                user = user;
                id = id;
                key = key;
                body = body;
                request = q;
                identified = e₁;
                addressed = e₂;
                keyed = e₃;
                decoded = e₄;
                dated = e₅;
              })
            ]
      ]
    ]
  ]
]
