-- ===== src/Service/Auth/Entry.antt =====
-- The token of a login lets its user in (auth_service.go, auth_middleware.go).
use go_invoicing.Store.Apart.{Apart}
use go_invoicing.Base.Text.{Text}
use go_invoicing.Admin.User.{User}
