-- ===== src/Lib.antt =====
-- Verification of the invoicing service: the life of invoices and their payments,
-- and the settings, customers, products, layouts and request limits around them.
--
-- The program is an HTTP service over PostgreSQL. An invoice is created as a Draft with the next
-- number of its organisation, is sent, which captures the seller, the customer, the currency and the
-- layout for good, takes payments until its total is reached, and may be cancelled while nothing is
-- paid. The service layer (internal/invoice/invoice_service.go) runs each of these as one
-- transaction, which reads and writes through repositories and applies the rules of the domain types.
--
-- The parts, and where the code of each stands:
--   * Base: numbers, texts, instants, and the parts of Go's packages that the program calls.
--   * Errors: the sentinel errors of the packages, and the places where the database is called.
--   * Admin, Customer, Product, Template: the types of internal/administration, internal/customer,
--     internal/product and internal/template. Admin.SettingsRequest is the partial update of the
--     settings (settings_service.go), without its database calls.
--   * Invoice: internal/invoice/invoice.go, line.go, payment.go and the request types. Its children
--     are Responses (invoice_dto.go, payment_dto.go), Format (pdf_format.go), Snapshot
--     (invoice_party_snapshot.go), Lifecycle (MarkSent, Cancel, CheckCancellable,
--     EffectiveStatus of invoice.go), Calculation (invoice_calculation.go) and Idempotency
--     (payment_idempotency.go).
--   * Store: the tables as lists of rows, transactions, and the repositories
--     (invoice_repository_postgres.go, payment_repository_postgres.go and those of the packages
--     above), one function for each method. Store.Invoices.create is Create, Store.Listing is List,
--     and so on, in snake case. Store.SettingsTable, Store.Customers, Store.Products and
--     Store.Templates are the writes of the other packages; Store.Paging is how a list query sorts
--     and cuts a page, and that the order of the table does not matter; Store.Keys and Store.Views
--     say what an UPDATE leaves of a table.
--   * Service: InvoiceService, a file for each method: Create, Send, Cancel, Pay (CreatePayment) and
--     Read (GetByID, List, GetPayments). A file Effect says what a transaction has done. Beside it,
--     Service.Settings is SettingsService, Service.Customers is CustomerService, Service.Products is
--     ProductService and Service.Templates is TemplateService.
--     Service.Auth is AuthService, the authentication of a request (auth_middleware.go,
--     authorisation.go) and an iteration of the cleanup worker (session_cleanup_worker.go);
--     Service.Users is UserService; Service.Organisations is OrganisationService with its logos, and
--     its child Register is RegistrationService, whose rows Laws.Founded describes. What they rest
--     on is Admin.User (user.go,
--     session.go, session_token.go), Admin.Password (password.go), Admin.Logo, Store.Users,
--     Store.Sessions and Store.Organisations; Store.Apart and Store.Sweep say what statements leave
--     of unique columns and of a table after a bounded DELETE.
--   * Ledger: what holds of invoices and payments between calls, kept by every call. Its
--     child Issued describes the rows that Send and Cancel are to leave, column by column.
--   * Http: entity tags (etag.go, the same in internal/administration and internal/template) and the
--     query parameters of list endpoints (internal/httpx/pagination.go).
--   * RateLimit: internal/ratelimit/ratelimit.go. Its Buckets is the map of keys; Reference is a
--     limiter that never forgets a key. ClientAddress is how a request gets its key
--     (internal/httpx/ratelimit.go).
--   * Handlers: what HTTP handlers share (auth_context.go, internal/httpx/decode.go, error.go), and its
--     children Invoices and Listing, internal/invoice/invoice_handler.go. Throws says which errors a
--     call can return; PaymentErrors, TransitionErrors, RequestErrors and CreateErrors are those of
--     the services.
--   * Examples: a ledger of one organisation, and the theorems applied to it.
--
-- How the model stands to the code:
--   * A call is a function from an Env and a Db to a result and a Db. The Env holds what the call
--     meets: the clock, fresh identifiers, the failure of each database call, the outcome of COMMIT,
--     and code of other packages: uuid.Parse, mail.ParseAddress, http.DetectContentType, the JSON
--     encoder, random bytes, base64, SHA-256, Argon2id, Sscanf, float64 arithmetic, the Unicode
--     tables beyond ASCII, and how the database matches and orders texts.
--   * in_tx is BEGIN, the body, and COMMIT or the deferred ROLLBACK. A COMMIT may succeed, fail and
--     be undone, or be done and go unacknowledged. A transaction is one step. In
--     InvoiceService the row locks of FOR UPDATE make it so; Delete of
--     TemplateService takes none, and SetDefault has no transaction, so that what is said of
--     sequences of their calls names what may not come between. in_tx_early is the same for
--     CreatePayment, whose replay returns before the COMMIT.
--   * int64 is an integer wrapped to 64 bits (Base.Int), and float64 its bit pattern (Base.Float).
--     The number of an invoice is at most 2147483647, the bound of its column.
--   * A text is the list of its code points. An idempotency key is the list of its bytes. A UUID is a
--     number. An instant is the number of nanoseconds since the year 0 began, in UTC.
--     The column payment_date is a DATE: a payment's date loses its time of day when it is stored.
--   * A status is one of the five constants, or any other text.
--   * The limiters of golang.org/x/time/rate are a record of operations; that one left alone serves
--     as a new one is a hypothesis. The mutex of the rate limiter makes a request one step.
--   * A handler is a function from a request and a Db to a response and a Db. The identity that the
--     middleware put into the context, the media type and the outcome of the JSON decoder are parts
--     of
--     the request; a response is a status with a value or with an error, whose message is a text of
--     the handler's own or the text of an error of the service.
--   * Loops are structural recursion. Fuel is used twice. In strconv.Itoa it is the number
--     itself and one more, which is at least the count of its digits. The cleanup worker's loop has
--     as
--     fuel the number of sessions and one more, and each of its rounds but the last deletes one or
--     more.
--
-- Not modelled: JSON, the HTTP handlers but those of invoices, GetPDF of these, the
-- middleware, the layout of PDFs, the web interface, logging and metrics, the ticker of the cleanup
-- worker, how long a verification takes, what JSONB makes of the white space of a layout's
-- definition, and cancellation of a context within a call. CHECK and FOREIGN KEY constraints and
-- the rounding of NUMERIC columns appear only as database calls that may fail. A list of rows is in
-- the order of the table unless the query names one that decides it, and so are the rows that a
-- bounded DELETE takes.
pub mod Base
pub mod Errors
pub mod Admin
pub mod Customer
pub mod Product
pub mod Template
pub mod Invoice
pub mod Store
pub mod Service
pub mod Ledger
pub mod Http
pub mod RateLimit
pub mod Handlers
pub mod Examples
