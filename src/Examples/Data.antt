-- ===== src/Examples/Data.antt =====
-- The organisation 1 with a customer, settings and a layout, an invoice in each state, and a
-- surrounding whose database never fails.
use go_invoicing.Base.{true, false, none, some, [], ◌∷◌, length, ◌*◌, ◌/◌}
use go_invoicing.Base.Int.{pos, pos_part}
use go_invoicing.Base.Text.{codes}
use go_invoicing.Base.Time.{zero_time, day_ns}
use go_invoicing.Admin.{Organisation, Settings}
use go_invoicing.Admin.Password.{encoded_hash, derived_key}
use go_invoicing.Examples.Crypto.{crypto}
use go_invoicing.Admin.User.{User, user_role_admin}
use go_invoicing.Customer.{Customer, CustomerStatus}
use go_invoicing.Template.{Template}
use go_invoicing.Invoice.{
  Status, Invoice, InvoicePartySnapshot, TemplateSnapshot, CreateInvoiceRequest,
  CreateInvoiceLineRequest, CreatePaymentRequest, no_seller, no_customer,
}
use go_invoicing.Invoice.Lifecycle.{copy_snapshots}
use go_invoicing.Store.{Db, Env, CommitOutcome}

abbrev pub env : Env
env = record {
  now = 800000 * day_ns;
  db_now = 800000 * day_ns;
  new_id = 200;
  later_id = λ n. n;
  parse_uuid = λ t. some (length t);
  marshal_template = λ t. some t.definition;
  digest = λ f. pos_part f.amount ∷ f.reference;
  floats = record {
    mul = λ x y. x * y;
    div_hundred = λ x. x / 100;
    of_int64 = pos_part;
    round_int64 = λ x. pos (x / 2);
  };
  crypto = crypto;
  valid_address = λ t. true;
  detect_content_type = λ bytes. codes "image/png";
  upper = λ c. c;
  lower = λ c. c;
  contains_folded = λ column text. true;
  collates_before = λ s t. false;
  fails = λ site. false;
  commit = CommitOutcome.committed;
}

abbrev pub organisation : Organisation
organisation = record {
  id = 1;
  name = codes "Alder";
  email = none;
  phone = none;
  website = none;
  address = none;
  city = none;
  state = none;
  postal_code = none;
  country = none;
  tax_id = some (codes "T1");
  created_at = zero_time;
  updated_at = zero_time;
  deleted_at = none;
  vat_registered = true;
  logo_id = none;
  version = 1;
}

abbrev pub settings : Settings
settings = record {
  id = 11;
  organisation_id = 1;
  invoice_prefix = codes "INV-";
  invoice_number = 41;
  currency = codes "EUR";
  payment_terms = 30;
  quantity_units = [];
  created_at = zero_time;
  updated_at = zero_time;
  deleted_at = none;
  version = 1;
}

abbrev pub customer : Customer
customer = record {
  id = 3;
  organisation_id = 1;
  name = codes "Birch";
  email = none;
  phone = none;
  company_name = none;
  tax_id = none;
  status = CustomerStatus.active;
  created_at = zero_time;
  updated_at = zero_time;
  deleted_at = none;
}

abbrev pub template : Template
template = record {
  id = 21;
  organisation_id = 1;
  name = codes "Classic";
  definition = codes "{}";
  is_default = true;
  is_system = true;
  created_at = zero_time;
  updated_at = zero_time;
  deleted_at = none;
  version = 1;
}

abbrev pub party : InvoicePartySnapshot
party = record {
  seller_name = codes "Alder";
  seller_email = none;
  seller_phone = none;
  seller_website = none;
  seller_address = none;
  seller_city = none;
  seller_state = none;
  seller_postal_code = none;
  seller_country = none;
  seller_tax_id = some (codes "T1");
  seller_logo_id = none;
  customer_name = codes "Birch";
  customer_company_name = none;
  customer_email = none;
  customer_phone = none;
  customer_tax_id = none;
  customer_address = none;
  customer_city = none;
  customer_state = none;
  customer_postal_code = none;
  customer_country = none;
  currency = codes "EUR";
}

abbrev pub layout : TemplateSnapshot
layout = record {
  template_id = 21;
  name = codes "Classic";
  definition = codes "{}";
  is_system = true;
}

abbrev pub draft_invoice : Invoice
draft_invoice = record {
  id = 100;
  organisation_id = 1;
  customer_id = 3;
  invoice_number = codes "INV-41";
  issue_date = 799990 * day_ns;
  due_date = 799995 * day_ns;
  subtotal = pos 100;
  vat_total = pos 20;
  total = pos 120;
  status = Status.draft;
  sent_at = none;
  notes = none;
  vat_registered = true;
  seller = no_seller;
  customer = no_customer;
  currency = none;
  cancelled_at = none;
  customer_display_name = [];
  rendered_template_snapshot = none;
  created_at = zero_time;
  updated_at = zero_time;
  deleted_at = none;
}

abbrev pub sent_invoice : Invoice
unfolding copy_snapshots
sent_invoice = record (copy_snapshots draft_invoice party (codes "{}")) {
  id = 101;
  status = Status.sent;
  sent_at = some zero_time;
  invoice_number = codes "INV-40";
}

abbrev pub paid_invoice : Invoice
paid_invoice = record sent_invoice {
  id = 102;
  status = Status.paid;
  invoice_number = codes "INV-39";
}

abbrev pub user : User
user = record {
  id = 5;
  organisation_id = 1;
  name = codes "Ada";
  email = codes "ada@alder.example";
  password_hash = encoded_hash crypto [] (derived_key crypto (codes "correct horse") []);
  role = user_role_admin;
  is_active = true;
  last_login = none;
  created_at = zero_time;
  updated_at = zero_time;
  deleted_at = none;
  terms_accepted_at = none;
  terms_version = none;
}

abbrev pub empty_db : Db
empty_db = record {
  invoices = [];
  lines = [];
  payments = [];
  organisations = organisation ∷ [];
  settings = settings ∷ [];
  customers = customer ∷ [];
  addresses = [];
  products = [];
  templates = template ∷ [];
  users = user ∷ [];
  sessions = [];
  logos = [];
}

abbrev pub db : Db
db = record empty_db { invoices = draft_invoice ∷ sent_invoice ∷ [] }

abbrev pub line_request : CreateInvoiceLineRequest
line_request = record {
  product_id = none;
  description = codes "Work";
  quantity = 2;
  quantity_unit = [];
  unit_price = pos 50;
  vat_rate = 20;
}

abbrev pub create_request : CreateInvoiceRequest
create_request = record {
  customer_id = codes "abc";
  issue_date = codes "2026-01-10";
  due_date = codes "2026-02-10";
  lines = line_request ∷ [];
  notes = [];
}

abbrev pub pay_request : CreatePaymentRequest
pay_request = record {
  amount = pos 50;
  payment_method = codes "card";
  payment_date = zero_time;
  reference = codes "a";
  notes = [];
  idempotency_key = codes "key-0000-0000-0000";
}

abbrev pub other_request : CreatePaymentRequest
other_request = record pay_request { amount = pos 60 }
