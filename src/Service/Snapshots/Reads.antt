-- ===== src/Service/Snapshots/Reads.antt =====
-- Building the snapshots only reads.
use go_invoicing.Base.{arith}
use go_invoicing.Admin.{Uuid}
use go_invoicing.Store.{Env}
use go_invoicing.Store.Laws.{ReadsOnly, query-ReadsOnly}
use go_invoicing.Store.Parties.{get_organisation, get_customer, get_settings, get_billing_address}
use go_invoicing.Store.Templates.{get_default}
use go_invoicing.Service.Snapshots.{build_party_snapshot, build_template_snapshot}

pub get_organisation-ReadsOnly : (env : Env) (org : Uuid) → ReadsOnly (get_organisation env org)
unfolding get_organisation
get_organisation-ReadsOnly env org = query-ReadsOnly env _ _

pub get_customer-ReadsOnly : (env : Env) (org c : Uuid) → ReadsOnly (get_customer env org c)
unfolding get_customer
get_customer-ReadsOnly env org c = query-ReadsOnly env _ _

pub get_settings-ReadsOnly : (env : Env) (org : Uuid) → ReadsOnly (get_settings env org)
unfolding get_settings
get_settings-ReadsOnly env org = query-ReadsOnly env _ _

get_billing_address-ReadsOnly :
    (env : Env) (org c : Uuid) → ReadsOnly (get_billing_address env org c)
unfolding get_billing_address
get_billing_address-ReadsOnly env org c = query-ReadsOnly env _ _

get_default-ReadsOnly : (env : Env) (org : Uuid) → ReadsOnly (get_default env org)
unfolding get_default
get_default-ReadsOnly env org = query-ReadsOnly env _ _

pub build_party_snapshot-ReadsOnly :
    (env : Env) (org c : Uuid) → ReadsOnly (build_party_snapshot env org c)
unfolding build_party_snapshot
build_party_snapshot-ReadsOnly env org c db = ground (
  arith,
  get_organisation-ReadsOnly env org db,
  get_customer-ReadsOnly env org c db,
  get_settings-ReadsOnly env org db,
  get_billing_address-ReadsOnly env org c db,
)

pub build_template_snapshot-ReadsOnly :
    (env : Env) (org : Uuid) → ReadsOnly (build_template_snapshot env org)
unfolding build_template_snapshot
build_template_snapshot-ReadsOnly env org db = ground (arith, get_default-ReadsOnly env org db)
