-- ===== src/Lib.antt =====
-- mygrok is a self-hosted tunnel: cmd/mygrokd is the public server, cmd/mygrok the client that keeps
-- a yamux session open to it. This library models the server's state, the path of a public request
-- through it, the management host, and the parts of the client that decide something.
--
-- A client is let in by its hello (Server/Handshake) and then holds a tunnel of the table
-- (Server/Registry). A public connection is read (Server/Headers), its host gives a subdomain
-- (Server/Names) and a live tunnel; the address rules (Server/Acl) and, for a locked tunnel, the
-- passkey list (Server/Locks) with the login session (Server/Passkeys) decide, and the request is
-- forwarded with the client's address put in. Server/Public puts these together. The management host
-- (Server/Manage) changes the rules, the lists, the users and the invites (Server/Invites); admins
-- are told by a session or the token (Server/Admin), visitors by a login session. The client
-- (Client/Proxy) tests a request once more before the local server sees it. The files:
--
--   Base             texts as bytes, association lists for maps, results, lists over the native ℕ
--   Server/Names     cmd/mygrokd/main.go: validSubdomain, validateCustomHost, normalizeHostnames,
--                    subdomainOf; cmd/mygrokd/ipacl.go: looksLikeSubdomain; cmd/mygrokd/admin.go:
--                    isManagementHost
--   Server/Registry  cmd/mygrokd/main.go: registry and its methods; Refined relates them to a map of
--                    subdomains to tunnels
--   Server/Disk      the write, by way of a temporary file, that ends every saveLocked
--   Server/Acl       cmd/mygrokd/ipacl.go: ipACL; Add and Remove in Edit, load in Load
--   Server/Locks     cmd/mygrokd/tunnellocks.go: tunnelLocks
--   Server/Passkeys  cmd/mygrokd/passkeys.go: users and credentials in Store, sessions in Sessions
--   Server/Invites   cmd/mygrokd/invites.go: inviteStore
--   Server/Headers   cmd/mygrokd/main.go: readHeadersAndHost, injectClientIP, stripMygrokCookies;
--                    cmd/mygrokd/admin.go: parseRequestLine; cmd/mygrokd/passkeys.go: the cookies
--   Server/Lan       cmd/mygrokd/lan.go: lanManager
--   Server/Handshake cmd/mygrokd/main.go: handleTunnelConn up to the claim, and from there to its end
--                    in Session; cmd/mygrokd/lan.go: LANHostname
--   Server/Public    cmd/mygrokd/main.go: handlePublicConn
--   Server/Admin     cmd/mygrokd/admin.go: admin sessions, adminAuthOK, sameOriginPOST, readPostForm
--   Server/Manage    cmd/mygrokd/admin.go and auth.go: the handlers of the management host, as
--                    functions of its state `Host`; serveAdmin in Dispatch, the address rules in
--                    Rules, lists, users and invites in People, logins in Login, accounts and
--                    registrations in Account, the use of an invite in Redeem
--   Server/System    the server as a whole: the calls that each handler makes on the tables, and the
--                    steps `Act` and `Run` of the server
--   Server/Startup   cmd/mygrokd/main.go: main and setupTLS; cmd/mygrokd/dnsprovider.go
--   Server/Views     cmd/mygrokd/admin.go and auth.go: the values that the JSON answers and the pages
--                    for admins show
--   Client/Args      cmd/mygrok: scanFlag, extractFlag, splitCSV and the split of arguments
--   Client/Auth      cmd/mygrok/basicauth.go
--   Client/Mcp       cmd/mygrok/mcp.go: the token, the gate and the path in the log
--   Client/Proxy     cmd/mygrok/main.go: proxyToLocal and forwardOne
--   Client/Reconnect cmd/mygrok/main.go: runReconnectLoop
--   Client/Session   cmd/mygrok/main.go: runOnce, from the server's answer to the URLs it shows
--   Client/Config    cmd/mygrok/config.go, and the source of an update in cmd/mygrok/update.go
--   Client/Names     cmd/mygrok/serve.go and service.go: the names that the client accepts or makes
--   Client/Serve     cmd/mygrok/serve.go: the arguments and the choice of a file
--   Client/Admin     cmd/mygrok/admin.go: cmdAdmin, and in Commands the subcommands that change the
--                    server up to their request
--   Client/Start     cmd/mygrok/main.go: cmdHTTP and resolveLANFlag; cmd/mygrok/mcp.go: cmdMCP
--   Client/Service   cmd/mygrok/service.go: the files of systemd and launchd; serviceInstall in Install
--   Tests            the theorems at concrete inputs
--
-- Every method of a store holds its mutex throughout, so it is one function of the store's
-- state, and calls by several goroutines are a sequence of steps: the data types `Step` and
-- `Reach`. A Go map is an association list in which a key is held once; an iteration over a map
-- is in the list's order. The state of a store includes the content of its file, and `Io` says
-- which step of a write fails. Time, random identifiers and the answers of the network are
-- arguments. Packages net, go-webauthn and base64 are the parameters `Net`, `WebAuthn` and
-- `Ceremony`; net/url, the decoding of base64 and strconv are `GoLib`; the DNS provider is
-- `Provider`; package flag is `Cli`, in `Libs` with net, and filepath.Join is in `Os`. A handler of the management host reads the clock once, and
-- the input of one request holds how each write and each random text turns out. All functions
-- are structurally recursive, so there is no fuel. `ToLower` and `TrimSpace` are those of ASCII
-- text.
--
-- Not modelled: the configuration of certmagic and of the listeners, but for the choice of names in
-- Server/Startup; the text of pages, JSON answers and cookies around their values; the WebAuthn
-- ceremonies; the copying of bodies and of the bytes after an upgrade; in the client, the output of
-- the admin subcommands, the text of a plist and what other programs make of the service files. A handler is one step of
-- a `Run`, so requests that are served at the same time follow each other; a theorem that starts in
-- the middle of a handler, at `commit_invite`, models two that overlap.
pub mod Base
pub mod Client
pub mod Server
pub mod Tests
