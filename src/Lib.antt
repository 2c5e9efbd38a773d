-- ===== src/Lib.antt =====
-- Stumpfworks Identity: a verification library for the parts of the program that decide who is let
-- in. All paths are from the repository's root.
--
-- The program is an identity server with an SQLite store (internal/database), HTTP handlers
-- (internal/server), an OpenID Connect provider (internal/oidc) and clients that enroll, log users in
-- by badge and update themselves (internal/clientupdate). A handler checks its request against
-- signed tokens (internal/auth, internal/badge) and against limits and grants in memory, and then
-- calls one operation of the store, which is one transaction with its audit entry.
--
-- Parts and files:
--   Base: lists, texts as lists of bytes, and results; Base/Errors has Go's pair of a value and an
--     error, and the transactions.
--   Auth/Primitives: the library routines for hashes and encodings, as parameters, and what their
--     packages document.
--   Auth/Sessions: internal/auth/session.go (Issue, Verify, CSRF). Auth/Permissions:
--     internal/auth/permissions.go. Auth/Badge: internal/badge/badge.go.
--   Store/Schema: the tables of internal/database/database.go, one list of rows each.
--   Store/Emergency: internal/database/emergency_admin.go.
--   Store/Jobs: internal/database/client_update_jobs.go and internal/clientupdate/job.go: the window and
--     the changes of state; Jobs/Scheduling: createUpdateJob.
--   Store/Devices: internal/database/client_device_authentication.go: enrollment and renewal;
--     Devices/Activation: activation, revocation and the authentication mode. Devices/Rows and
--     Badges/Rows say what single statements do to the rows of their tables.
--   Store/Badges: the badges of internal/database/database.go and audit_mutations.go;
--     Badges/Audited: those of administrative_audit.go.
--   Store/Oidc: internal/database/oidc_audit.go; Store/Oidc/Sessions: oidc_sessions.go;
--     Store/OidcClients: oidc_administration_audit.go.
--   Store/Accounts: users, PINs and subjects of administrative_audit.go, session_audit.go and
--     oidc_administration_audit.go; Store/SelfService: the self-service sessions of database.go.
--   Store/Webauthn: internal/database/webauthn.go, with its checks in Validation and the passkeys in
--     Passkeys; Changes and History say how its tables change, Spent and SignedIn what follows.
--   Server/Grants, Server/Limiter, Server/BadgeLogin, Server/Guard: the login grants, the limits of
--     attempts, the handler auth and adminGuard of internal/server/server.go, with
--     requiredAdministrativePermission of internal/server/authorization.go and allowedLimit of
--     internal/oidc/provider.go.
--   Server/Pkinit: issuePKINIT of internal/server/pkinit.go.
--   Updates/Versions, Updates/Manifest: validVersion, compareVersions and validateManifest of
--     internal/clientupdate/verify.go.
--   Updates/Install: internal/clientupdate/install.go, rollback.go, restore.go, transaction.go and
--     stage.go: the installation of a staged release over a map from targets to contents, its
--     rollback, and the recovery at the next start.
--   Updates/Worker: internal/clientupdate/worker.go, over Updates/Install: RunWorker (Worker/Run),
--     with finishWorker and the job that was executing (Worker/Resume). Worker/Budget counts the
--     installations that a journal still allows.
--   Provider: internal/oidc/provider.go, over Store/Oidc, Store/OidcClients, Store/Accounts and
--     Server/Limiter: authorize (Provider/Authorize), token (Provider/Token), introspect and revoke
--     (Provider/Access).
--   Examples: the theorems at concrete inputs.
--
-- How the program is modelled. A definition has the name of its Go function in snake case; a Go
-- function with a long transaction is an operation and its body, the function between BeginTx and
-- Commit. A table is a list of rows, the newest first, and SELECT, UPDATE, DELETE and the UNIQUE,
-- CHECK and REFERENCES clauses are tests on that list. Every call of the driver may fail: an
-- operation takes the calls that do, by their number (Faults); a transaction that meets an error, a
-- failing Commit included, leaves the database as it was. Operations run one after another, as
-- SQLite's transactions and the server's mutexes have them; a history is a list of operations.
-- Instants are nanoseconds since Go's zero time, in the unbounded naturals, and are compared as
-- instants; CURRENT_TIMESTAMP is the argument `clock`. A difference that Go compares with a positive
-- bound is truncated at 0 only where another test refuses it, or is written as a sum. Errors are
-- kinds, without their messages. A handler of the provider takes the failures of each of its calls
-- of the store, what the random source gives and the time at each point where it reads the clock. A
-- call of the operating system in an installation may fail by its place in the code (Call), so that
-- an interruption is a failure of everything from there on. A run of the worker takes a World: the
-- answers of the server, the failures by place, the clock, and the machine that a loss of power
-- leaves; the list of installations that were called is kept beside the state, to count them. No definition needs fuel: all recursion is on lists and texts.
--
-- Parameters: SHA-256, HMAC, base64, hexadecimal, strconv's FormatInt and ParseInt, net.ParseIP,
-- lower case, TrimSpace, Fields and EqualFold, the regular expression of identifiers, Argon2id,
-- bcrypt, the random source, pem, x509, the signer of tokens, net/url, the JSON coding of a stage
-- plan and of a version, and the directory; and, for the worker, VerifyPackage and VerifyAndStage. strconv.Atoi is written out in Updates/Versions.
--
-- Not modelled: updated_at and the identifiers and times of audit rows, which no modelled statement
-- reads; the PostgreSQL dialect; the WebAuthn protocol of internal/passkey, whose result the store
-- takes as an argument; the unpacking and verification of archives, the health checks and
-- the checks of the worker on its configuration; the special mode bits and the owners of files, and a
-- transaction record of an installation that names another rollback directory; the remaining handlers, HTML, LDAP, configuration, metrics and the command line, which are input and
-- output around these parts.
pub mod Base
pub mod Auth
pub mod Store
pub mod Server
pub mod Updates
pub mod Provider
pub mod Examples
