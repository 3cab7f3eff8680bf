-- ===== src/Lib.antt =====
-- The core of ovcp, a control panel for one OpenVPN server: who may log in and reach a handler of the web
-- API, which certificates and accounts exist, which upstream a client's traffic takes, how openvpn is
-- configured, supervised and spoken to, and whom the Telegram bot obeys.
--
-- Parts. `Service.Login` asks two rate limiters, reads the account from the store, checks the password
-- and the one-time code and opens a session, which `Validate` resolves later; the gate of the web API
-- lets a request with such a session through to the handlers that the user's role may use. The store
-- keeps the certificates, from which the revocation list is made, the accounts and the history. The
-- upstream configuration maps clients to upstreams; the rules put a mark in the kernel's table for each
-- connected client that has an upstream of its own. The server's configuration is validated, rendered and
-- installed together with the saved one. The supervisor runs openvpn, the management client reads its
-- notices and its status file and kills clients, and the control socket and the bot drive both.
--
-- Base: lists, texts as lists of bytes with the functions of `strings` (white space is that of ASCII), 64-bit integers as ℤ, maps as
--   association lists, results with an error.
-- Auth (internal/auth): Roles (`Can`, `ValidRole`), Secrets (`SecretOK`), Passwords (`HashPassword`,
--   `VerifyPassword`), Totp (`totpCode`, `TOTPVerify`), Limiter (`Limiter`), Login (`Service`).
--   Login uses the limiter, the passwords, the codes and the store.
-- Store (internal/store): Names (`CheckName` of internal/pki/pki.go), Certs (store.go), Totp
--   (`encryptTOTP`, `decryptTOTP` of users.go), Users (users.go), Stats (stats.go). The unique indexes and
--   the triggers of internal/store/schema.sql are part of the operations that set them off.
-- Upstream (internal/upstream/upstream.go): Config (`Config` and its changes), Rules (`Establish`,
--   `Disconnect`, `Reassign`, `ClearAll`, `reinstall`), Apply (`Apply`, `Teardown` and their commands).
-- Ovpnconf (internal/ovpnconf/config.go): Diff (`Diff`), Server (`Config`, `Validate`, `ServerTunIP`),
--   Render (`Render`, `Domain`, `WriteAtomic`).
-- Controller (internal/controller): Supervisor (supervisor.go: a call, and what the goroutines of the
--   reaper and of `autoRestart` do between two locks, as steps), Status (`parseStatusFile` of mgmt.go),
--   Mgmt (`readLoop`, the handlers of its notices, `exec`, `Kill` of mgmt.go), Ops (`RunOp`,
--   `RunTelegramOp` of control.go), Control (`serveControlConn` and the client's calls of control.go),
--   Logs (`RotateLog`, `compressOld`, `pruneOld` of logrotate.go).
-- Api (internal/api): Routes (`routes`, `wildcards`, `readIn` of api.go), Gate (`Handler`, `wrap`,
--   `respond`), VpnConfig (`SetVPNConfig`, `SetManagementClientAuth`), Certificates (`IssueClient`,
--   `RevokeCert`, `RenewServer`, `RegenCRL` of handlers.go, with `Issue` of internal/pki/pki.go), Hosts
--   (`CertsHostsContent` of dns.go). The gate uses Auth, Certificates the store, VpnConfig Ovpnconf.
-- Telegram (internal/telegram): Poller (the settings, `Start`, `Stop`, `matches`, `senderOf` of
--   poller.go), Commands (`handleCommand`), Handled (`handle`), Updates (`loop`), Messages
--   (`sendMessage` of bot.go).
--
-- State is passed explicitly: a method takes the state before and returns the state after, and an error
-- is a value. A method of the limiter, of the upstream rules or of the store is one step under its mutex
-- or its transaction, and a run is a list of such calls. The supervisor, whose calls block between two
-- locks, has a step for each part, and logins overlap in two steps each (Auth.Login.Overlapping).
-- `SetVPNConfig`, `SetManagementClientAuth`, `IssueClient`, `RevokeCert` and `RenewServer` hold no lock
-- over their steps either: a run of them is one call after the other, and what calls do that overlap is
-- left out. Times are Unix seconds and the clock is an argument.
-- Every loop is a recursion on its list, but that of `NextTable`, which has 64 rounds, the walk of `Diff`,
-- whose fuel is the number of lines, of which each round takes one, the loop of `readLoop`, which likewise
-- has a round for each line, the cuts of `sendMessage`, with a round for each byte, of which a cut takes at
-- least one, and the polls of `loop`, whose number is an argument, since only the context ends them.
-- Cryptography, Unicode, URL and address parsing, JSON, the match of a route and nft are records of
-- operations, with what the program relies on as hypotheses; the tests give them concrete functions. A
-- worker's calls act on a state that is a parameter where the caller does not look into it.
--
-- Not modelled: the text of the nft ruleset, the SOCKS relay, the settings and the audit
-- tail, the handlers of the web API but for certificates and the change of the server's configuration,
-- the words of the bot's reports; nor network I/O, file I/O and its failures but for server.conf and the CRL, X.509, the command line, the web interface.
pub mod Base
pub mod Upstream
pub mod Ovpnconf
pub mod Controller
pub mod Telegram
pub mod Store
pub mod Api
pub mod Auth
