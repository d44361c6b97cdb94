-- ===== src/Lib.antt =====
-- A verification library for rgit, a self-hosted Git server: HTTP and SSH access to bare repositories, a
-- REST API, Git LFS, and a SQLite database of users, groups, projects, keys and tokens.
--
-- The parts, and how they interact. A request comes in over HTTP (crates/rgit-http) or as an OpenSSH forced
-- command (crates/rgit-ssh). Middleware finds out who is calling, a handler decides with the access policy
-- of crates/rgit-core whether the caller may act, reads and writes the database in transactions, and the
-- repositories on disk are served by Git child processes (crates/rgit-git). All of it shares one state, the
-- record World of Store.antt: the tables, the clock, the login throttle, the random secrets still to be
-- drawn, the repository directories, the stored LFS objects, sshd's file of keys and the services that forced
-- commands have started. A handler is a function from a World to a
-- result and a World. The oracle `fails` of a World says which of the calls of SQLite, Git and the file
-- system fail for a reason outside the program, so that a statement about all Worlds is one about all such
-- failures. A handler's calls are not interleaved with those of others, except in the step relation
-- of Tables/Invariant.antt, whose steps are the transactions in any order.
--
--   Common, Result, Outcome   shared notation: tests on native numbers, integers, text as its characters, the
--                             error monad, answers with a status
--   Error                     crates/rgit-core/src/error.rs, crates/rgit-http/src/error.rs
--   Perm, PathSegment, Models crates/rgit-core/src/perm.rs, path.rs, models.rs
--   Store                     the World, and the actions on it: query, execute, transaction. Store/Calls inverts
--                             successful calls, Store/Ends has rules for postconditions,
--                             Store/Starts for actions that start no service of Git
--   Auth/Authorize            crates/rgit-core/src/auth/mod.rs; Levels and Policy state the policy
--   Auth/Token, Auth/Password crates/rgit-core/src/auth/token.rs, session.rs, lfs_token.rs, password.rs
--   Auth/Identity             crates/rgit-http/src/middleware/auth.rs; Presented says what the headers of a request carry
--   Throttle                  the failure map of crates/rgit-http/src/handlers/api/session.rs
--   Tables                    the statements that the handlers run, with the constraints and triggers of
--                             crates/rgit-core/migrations. Tables/Invariant is the step relation of the
--                             transactions; Tables/Invariant/Runs has the rules by which a handler's action is
--                             shown to take its steps only
--   Groups, Admin, Members    crates/rgit-http/src/handlers/api/groups.rs, admin.rs, members.rs
--   Locate, Pagination        crates/rgit-http/src/handlers/helpers.rs, `locate` of handlers/api/projects.rs,
--                             handlers/api/mod.rs
--   Projects                  handlers/api/projects.rs: get, set_archived and transfer with their guards, Create,
--                             Listing (list), Delete (delete with its rollback of the directories), Update, Fork
--   State                     crates/rgit-core/src/state.rs: the slot of a Git operation, and Tracker, the counter
--                             of operations as a step relation of the tasks that begin, drop and wait
--   GitHttp                   crates/rgit-http/src/handlers/git_http.rs up to the start of the child process,
--                             and Push (post_receive)
--   GitRead                   crates/rgit-git/src/read.rs: the commands, and Output, the parsers of what git prints
--   Browse                    crates/rgit-http/src/handlers/api/repo_browse.rs
--   Repo                      crates/rgit-git/src/repo.rs: Run (run_git_limited) and Head (the default branch after
--                             a push)
--   Storage                   crates/rgit-core/src/storage.rs
--   Lfs                       crates/rgit-http/src/handlers/lfs.rs: access, Objects (batch, download, verify) and
--                             Upload (upload and store_streaming)
--   SshKey                    crates/rgit-core/src/auth/sshkey.rs
--   Protocol, Autocreate      crates/rgit-git/src/protocol.rs, autocreate.rs
--   Shell                     crates/rgit-ssh/src/shell.rs: the command parser, and Run, one forced command
--   AuthorizedKeys            crates/rgit-core/src/auth/authorized_keys.rs
--   Account                   crates/rgit-http/src/handlers/api: Keys (keys.rs), Tokens (tokens.rs), Profile (user.rs),
--                             Login (login, logout and client_ip of session.rs)
--   Tests                     a small instance, and the theorems applied to it
--
-- Bounds. Row ids and times are natural numbers; sizes and levels are integers. The throttle's counts wrap
-- at 2^32. SHA-256, bcrypt, base64, UTF-8 decoding and the printing of a number are arguments. The
-- only fuel is that of Rust's trim_end_matches, the length of the text, and of the hexadecimal digits above
-- the fourth, the number itself; each step shortens the text or divides the number by 16.
--
-- Not modelled: the streams between a client and a child process, HTTP framing, JSON encoding, the temporary
-- file of an upload, the web client, the GitLab import, and the configuration.
pub mod Common
pub mod Error
pub mod Result
pub mod Perm
pub mod PathSegment
pub mod Models
pub mod Store
pub mod Auth
pub mod Throttle
pub mod Tables
pub mod Groups
pub mod Pagination
pub mod Admin
pub mod Locate
pub mod Members
pub mod Storage
pub mod SshKey
pub mod Protocol
pub mod Autocreate
pub mod AuthorizedKeys
pub mod Account
pub mod Shell
pub mod Tests
pub mod Projects
pub mod Outcome
pub mod Lfs
pub mod State
pub mod GitHttp
pub mod GitRead
pub mod Browse
pub mod Repo
