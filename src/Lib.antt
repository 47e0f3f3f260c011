-- ===== src/Lib.antt =====
-- Credbound: authentication, sessions and authorization for a multi-tenant Go service.
--
-- The program is a Manager, whose methods a host calls, over a Store behind a port. A method reads
-- the clock and randomness, checks gates, reads the store, and ends in one mutation of the store that
-- carries an audit event. The store keeps every audit event in a SHA-256 chain.
--
-- Types        types.go, oauth_types.go, errors.go, errors_http.go: records, enumerations, sentinel
--              errors. An identifier is a number, 0 the zero UUID; a time is a number of
--              nanoseconds, 0 the zero time; bytes are a list of numbers.
-- Audit        audit.go: Encoding, Hash and Verify hold `ComputeAuditHash` and the checks of
--              `VerifyAuditChainFrom` after its authorization; Frames, Canonical, Chain and Tamper
--              hold what follows from them.
-- Store        memory/store.go, memory/oauth.go: State has the maps and the monad of calls,
--              `Store → Result × Store`; the state after an error is part of the result, since the
--              code changes maps in place.
--              Commits has `prepareCommitLocked`, `finishCommitLocked`, `canAudit` and
--              `commitAudit`. Users, Passwords, Factors, Sessions, Pats, Members and Admins have an
--              operation for each method. Calls makes one value of each mutation, Effects and
--              CallEffects say what one call does, Outcomes, Chain and History what any call and any
--              list of calls do, Ceremonies what a commit's ceremony does. Revoking, SingleUse,
--              LastAdmin, LastMember, Lockout and LoginFailures are about single operations. The modules
--              Revocation, Issuers, Initials, Clients, Codes and Refresh below Oauth are
--              memory/oauth.go; SingleUse, Families, GrantRevocation, Disabling, Index
--              and Kept hold what follows.
-- Manager      State has the world of a method (the store, the generator of identifiers, the number
--              of clock readings, draws and store calls so far, the emitted events) and the
--              environment that answers each of them, other callers' changes of the store included:
--              a statement about every environment is one about every interleaving of store calls.
--              Ids is internal.go; Audits, StepUp, Passwords, SignIn and ChangePassword are
--              auth.go; Catalog, Roles and Authorize are workspace_roles.go and rbac.go; Sessions
--              is session.go; Admin is admin.go; Tokens, PatScopes, Pats and PatIssuing are pat.go;
--              Totp is totp.go, with Sealing from internal.go. Gates, Capable, Permits, LiveSessions,
--              SignOuts, SignInLookups, SignIns, CurrentPasswords, PasswordChanges, PatRejections,
--              LivePats, IssuedPats, SpentCodes, Promotions, Recoveries, SecondFactor, Monotonic and
--              the modules below Catalog and Tokens hold what follows.
-- Tests        the theorems at concrete inputs.
--
-- Parameters: SHA-256, HMAC, the text of a UUID, password hashing, verification and policy, the
-- parser of session tokens, the opening of AES-GCM, the check of a TOTP code, upper case past
-- ASCII, the clock, the randomness, the context's error, the hooks' outcome, the order in which Go
-- runs through the map of role definitions. A transaction hook is its outcome: what it does outside
-- the store is not modelled. Signed sizes that the code tests with `<= 0` are natural numbers, 0
-- for none. Recursion is structural: the retries of a sign-in are counted down from two, and the
-- digits of a number have the number as their bound; the compilation of the roles takes the number
-- of definitions and one as fuel, which a theorem shows to be enough.
--
-- Not modelled: the maps of email addresses, invitations, domains, SSO and SCIM, and the paged
-- listings; the manager's operations on them; the enrollment of TOTP, passkeys and resets in the
-- manager; the PostgreSQL store, the HTTP handlers, the adapters and the observers with their clock
-- readings. The clock reading with which a method starts serves its metrics and is left out.
pub mod Prelude
pub mod Types
pub mod Audit
pub mod Store
pub mod Manager
pub mod Tests
