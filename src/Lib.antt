-- ===== src/Lib.antt =====
-- Verification of security-go, a Go library that inspects requests for attacks.
--
-- The program's parts and the files that model them:
--
-- security.go - severities, results, detectors, and the engine that runs the registered detectors on a
-- text (`DetectAll`) or on the parts of a request, as they are and URL-decoded (`DetectRequest`).
-- Security holds the data, Security/Patterns `FirstMatch` and the two shapes of search that the
-- detectors have, Security/Engine the engine: `Register`, `Detect`, `DetectAll`, `DetectRequest` are
-- `register`, `detect`, `detect_all`, `detect_request`. Go ranges over the engine's map in any order,
-- and in another one at each scan: the orders are an argument, and the theorems hold for all that list each
-- entry once. A severity is one of the four that have names; the Go type is an integer.
--
-- injection/, protocol/, data/, file/ - detectors for single inputs. Injection, Protocol, Data and
-- FileChecks have a module for each, with its patterns as they are written in the source. Package
-- regexp is the argument `rx`: nothing is assumed of which texts a pattern matches. Data/JwtAttack takes
-- packages strings, encoding/base64 and encoding/json as the record `Packages`, FileChecks/Extension the
-- lower-cased extension of a file name as a function. all/all.go is All: `register_all`.
--
-- storage/ - counters and bans behind the interface `Backend` (Storage): in memory (Storage/Memory), and
-- in a file that is saved as a whole (Storage/File, with encoding/json as the record `Json`, and a save
-- as the list of calls of the operating system, each of which may fail; a text that is not synced may be
-- lost in a power cut), and in Redis (Storage/Redis, where
-- the server is an argument: its commands, with `Laws` as they are documented). httpval/ip_blacklist.go is
-- Storage/IpBlacklist, over any backend: it counts attacks and bans.
--
-- session/ - the session store (Session/MemoryStore), the settings, keys, addresses and encodings of the
-- tracker (Session/Tracker), the lockout of identities after failed logins (Session/Lockout for
-- lockout.go and `lockFor`, Session/BruteForce for bruteforce.go: `RecordFailure`, `CheckLogin`,
-- `GuardLogin` are `record_failure`, `check_login`, `guard_login`), the sessions bound to a client and
-- the known networks of a user (Session/Tracker/Checks: `Issue`, `Revoke`, `Check`, `Guard`, `Observe`
-- are `issue`, `revoke`, `check`, `guard`, `observe`), over any store that satisfies
-- `IsStore`, as the in-memory one does. Session/BruteForce/Account has the abstract view of an identity that
-- the lockout keeps to. Session/Release makes any calls of a tracker one after another; Session/Outage has a
-- store that cannot be read. `NewTracker` and `DefaultTokenSource` are in
-- Session/Tracker/Defaults. Operations on the store are steps of the monad `M`: a state, and a value or an
-- error. Packages crypto/sha256, strconv, strings, time, encoding/json and net are the
-- record `Packages`; `Laws` states what is assumed of them (numbers and lists are read back
-- as they were written, and so are sessions whose texts are UTF-8; RFC 3339 keeps whole seconds), and Session/Codec has functions that satisfy it.
--
-- session/tamper.go is Session/Signer: `Sign` and `Verify` are `sign` and `verify`, over any backend that
-- counts nonces. Packages crypto/hmac, encoding/hex, net/url and strconv are its `Packages`, and its `Laws`
-- what is assumed of them: which characters they write, that `QueryEscape` and `FormatInt` are undone.
-- Nothing is assumed of the HMAC beyond its alphabet. What a random source gives is an argument of `sign`.
--
-- httpval/ - checks of single parts of a request: Httpval/NestedDepth scans the tokens of encoding/json,
-- which are an argument, as are the parsers that Httpval/BodySize, Httpval/ContentType, Httpval/CsrfOrigin
-- and Httpval/CookieAttrs call; Httpval/Method has a fixed list.
--
-- pet/mood.go is Pet/Mood: `MoodOf` is `mood_of`. The pictures of pet/ are Pet/Expression, where the
-- embedded files are an argument, and a handler is the response it asks net/http for.
--
-- Time: an instant is the number of nanoseconds since the zero `time.Time`. An operation reads the clock
-- once, as its argument `now`. `Sub` saturates as in Go (Shared/Time); a window or a ban is not
-- negative, and adding one to an instant does not overflow. Settings are signed (Shared/Int), since the
-- code tests for those that are not positive. Counters are natural numbers and do not overflow.
--
-- Loops are structural: over the patterns, the detectors, the inputs, the records, or the rounds of
-- `lockFor`. The loop of `stripCookiePrefix` alone runs on fuel: each turn takes bytes away, so more fuel
-- than the header has bytes is enough.
--
-- Concurrency: the storage backends and the session store hold a mutex during an operation, so a history
-- of calls is a sequence of operations, in which the reapers and the periodic save are steps of their
-- own. An operation of the tracker or of the blacklist makes several calls of its store; the model runs
-- each such operation as a whole, without calls of another one in between. For `RecordFailure` there is a
-- second model, Session/BruteForce/Racing: an attempt is the calls of the store that it makes, and attempts
-- at the same time make theirs in any order. Storage/IpBlacklist/Racing has the same for `RecordAttack`.
-- `Verify` makes one call of its backend.
--
-- Not modelled: the construction of the client of Redis, and the loops around the tickers, whose ticks are
-- steps. The store of a tracker is required; where the
-- code tests for a nil one, `is_locked_in`, `clear_failures_in` and `record_failure_in` do.
--
-- Shared has the helpers: Boolean tests on numbers, lists, maps as association lists, keys, and texts that
-- are cut at a character.
pub mod Shared
pub mod Security
pub mod Injection
pub mod Protocol
pub mod Data
pub mod FileChecks
pub mod All
pub mod Storage
pub mod Session
pub mod Pet
pub mod Httpval
