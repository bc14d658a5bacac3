-- ===== src/Lib.antt =====
-- dbchan: a Kubernetes operator that manages datastores, databases, users, roles and migrations in
-- MySQL, PostgreSQL and SQL Server. Controllers (internal/controller) bring the databases in line with
-- the custom resources (api/v1), and webhooks (internal/webhook) decide which resources the API server
-- takes. Controllers and webhooks meet in the objects of the API server only: a datastore names a
-- secret, a database and a role name a datastore, a migration names a database.
--
-- The files, and what they model:
--   Base           texts, integers, and programs that return a value or an error (Base/Prog), with the
--                  rules for pre- and postconditions (Base/Prog/Triples)
--   Api            api/v1/*_types.go: the resources as records
--   Cluster        the calls to the API server, to database/sql and to the clock
--   Connection     buildDatastoreConnectionString, getDatastoreSecret and connectToDatabase of
--                  internal/controller/{user,database,migration}_controller.go, whose copies agree;
--                  Connection/Discipline says what it is to use connections well
--   Controller     ctrl.Result and the searches by name of the Reconcile functions;
--                  Controller/Coherent reads the flag and the phase of a status that is written, and
--                  Controller/Reported the status that a result goes with
--   Migration      internal/controller/migration_controller.go: Migration/Table is the tracking table,
--                  Migration/Apply is applyMigration and rollbackMigration, Migration/Reconcile is
--                  Reconcile; Migration/Evidence says what its writes to the API server stand on, and
--                  Migration/Protocol which statements are sent, and when;
--                  Migration/Protocol/Ledger is the table as a set of versions, and
--                  Migration/Table/Column reads its columns
--   Datastore      internal/controller/datastore_controller.go, in the same way
--   User           internal/controller/user_controller.go: User/Statements has the SQL of each dialect,
--                  User/Account is createOrUpdateUser and cleanupUser, User/Reconcile is Reconcile,
--                  and User/Evidence says what its writes to the API server stand on
--   Database       internal/controller/database_controller.go, in the same way; Database/Provision is
--                  createOrUpdateDatabase and cleanupDatabase
--   Role           internal/controller/database_role_controller.go, in the same way; Role/Provision is
--                  createOrUpdateRole and deleteRole
--   Regexp         regular expressions, their language and a matcher
--   Webhook        internal/webhook: Webhook/Checks and Webhook/Names hold what the four files share,
--                  and Webhook/{Datastore,Database,User,Role} are one webhook each;
--                  Webhook/User/Admissible says what a user must be without the webhook
--   Operator       requests to the five controllers, served one after the other: Operator/Safety is
--                  about their writes and connections, Operator/Results about their results
--   Manager        cmd/main.go: the options of the manager, and Manager/Setup registers its parts
--   Tests          a small cluster, runs of the definitions on it, and the theorems applied to it
--
-- A Go function that returns (A, error) is a program: it takes the trace of the calls made so far, and
-- returns an A or an error with the longer trace. A World is a parameter: it answers each call from the
-- trace, with an object or an error of its choice, so that the theorems hold whatever the server, the
-- databases and other clients do between two calls, and at every point where a call fails. The
-- finalizer functions of controller-runtime, sha256 and base64 decoding are functions of the World.
-- An early return of Reconcile is an outcome that the program raises. An object that the program
-- changes in place is passed on; an update gives the object as the server stored it, as client-go
-- writes it back.
--
-- A cluster is calm (Cluster/Calm) if nobody else changes its objects, every write is stored and every
-- call to a database succeeds; reads may show the writes, and those of the cluster of Tests/Calm do.
-- Each */Reconcile/Ready is about one run there; the other files below Reconcile (Connections, Writes,
-- Reported) are about runs in every cluster.
--
-- All loops are structural recursion; the digits of a number are listed on fuel, and the number itself
-- is enough of it (Base/Int/Decimal). Texts are valid UTF-8, as those of the API server are; case
-- folding is that of strings.EqualFold and strings.ToUpper against an ASCII text, which is the only use.
--
-- Not modelled: logging; the parsing of flags and the registration of types
-- (api/v1/groupversion_info.go); generated deep copies; and the time limits of contexts,
-- which a World expresses by calls that fail.
pub mod Base
pub mod Api
pub mod Cluster
pub mod Connection
pub mod Controller
pub mod Regexp
pub mod Webhook
pub mod Datastore
pub mod Migration
pub mod Database
pub mod Role
pub mod Tests
pub mod User
pub mod Manager
pub mod Operator
