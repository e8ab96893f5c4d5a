-- ===== src/Lib.antt =====
-- ocserv-rs: a model of the VPN server ocserv-rs with the theorems on its parts.
--
-- The server accepts TLS connections, reads HTTP requests, authenticates users and, on a
-- CONNECT request with the token of a session, allocates an address and runs a tunnel between
-- the client and a TUN device. Packets travel in CSTP frames over TLS and, when the client
-- opens it, over DTLS, for which a server on UDP finds the tunnel by the session id of the
-- ClientHello. A control socket tells the tool occtl who is connected.
--
-- The files and the code that they model, by its path from the root of the repository:
--
--   Base             names and lemmas that all parts share; Rust's Result, HashMap,
--                    HashSet, String and UTF-8 decoding as far as the code uses them
--   Config           src/config.rs, and the configuration in src/auth/sso/oauth2.rs
--   Auth/Password    src/auth/password.rs (PasswordAuthenticator)
--   Auth/Provider    src/auth/provider.rs (PasswordAuthProvider, AuthManager)
--   Auth/Session     src/auth/session.rs (SessionManager)
--   Utils/Cert       src/utils/cert.rs
--   Vpn/Cstp         src/vpn/cstp.rs (PacketType, CstpPacket)
--   Vpn/DtlsEngine   src/vpn/dtls_engine.rs (MemoryStream, DtlsEngine)
--   Vpn/Dtls         src/vpn/dtls.rs (DtlsServer, the key callback, SessionGuard);
--                    SetUp is DtlsServer::new
--   Vpn/IpPool       src/vpn/ip_pool.rs (IpPool, SharedIpPool)
--   Vpn/Tunnel       src/vpn/tunnel.rs (VpnTunnel::run): Writer is task 1 with the
--                    signal monitor, Reader and Ingress are the branches of task 2
--   Http/Request     src/http/manual_http.rs (HttpRequest)
--   Http/Read        src/http/manual_http.rs (read_request)
--   Http/Response    src/http/manual_http.rs (HttpResponse, find_header_end)
--   Http/RawConnect  src/http/raw_connect.rs
--   Http/Cookie      src/http/handlers/auth.rs (extract_webvpn_token)
--   Http/Login       src/http/handlers/auth.rs (the login handlers)
--   Http/State       src/http/handlers.rs (the sessions and the HPKE contexts)
--   Http/Routes      src/http/server.rs (handle_http_request)
--   Http/ConnectFlow src/http/server.rs (the CONNECT branch of HttpServer::run)
--   Http/Write       src/http/manual_http.rs (write_response)
--   Http/Connection  src/http/server.rs (the loop on one TLS connection);
--                    Accept is the loop that accepts them
--   Auth/Sso         src/auth/sso (SamlProvider, OAuth2Provider, the mock provider)
--   Crypto/Hpke      src/crypto/hpke.rs (HpkeContext, write_tlv)
--   Protocol/Dtd     src/protocol/dtd.rs
--   Vpn/TunDevice    src/vpn/tun_device.rs
--   Start            src/main.rs, src/tls_config.rs, ServerState::new and the set-up
--                    in HttpServer::run
--   Control          src/control/mod.rs (handle_client); Server is ControlServer::run and
--                    Client src/bin/occtl.rs
--
-- State is a record that each operation takes and returns. A mutex makes an operation one step.
-- A select of tokio is a function on the list of events that it takes, in any order, so a
-- theorem on all lists covers all orders. What other connections do to the shared state while a
-- tunnel runs is a function argument of the CONNECT flow, with what is asked of it as a
-- hypothesis. The writes of the DTLS negotiation and the check of the token are one step there,
-- since no other connection touches the same entries.
--
-- Crates and system calls are parameters: OpenSSL as the interfaces Ssl and Openssl, ipnetwork
-- as IpNetwork, the cryptography of HPKE as Crates, hex, base64, url, urlencoding, flate2,
-- reqwest and serde_json as functions, sockets, channels, files and the TUN device by their
-- outcomes. Random values and times are arguments.
--
-- Texts are lists of UTF-8 bytes; the case mapping and the white space of the program's header
-- names and cookies are those of ASCII. An IPv4 address is its 32-bit number. The length field
-- of a CSTP frame keeps its wrap-around at 65536, and subtraction in the code that saturates is
-- subtraction of natural numbers.
--
-- Five loops run on fuel. The frame reader's fuel is the length of its buffer and one more,
-- since every round takes a header at least; the DTLS engine's fuel is the number of records
-- that OpenSSL has and one more, since every read that succeeds takes one. The reader of
-- requests has 8193 rounds for a head of at most 8192 bytes, and one more round for a body than
-- it has bytes. The loop of a connection has one more round than there are bytes to arrive,
-- since every request takes some. Theorems state that none runs out.
--
-- A panic is a value, where the code can come to one by what a client or a file contains: it
-- ends the task of the connection, or the start. Messages of the level debug are taken to be
-- off, so that what stands only in them is not evaluated; whether those of the level info are
-- on is a parameter.
--
-- Not modelled: the spawning of tasks, the arguments of the command lines, and what crates do:
-- TOML, XML, JSON, templates, URLs and cryptography.
pub mod Base
pub mod Config
pub mod Utils
pub mod Crypto
pub mod Protocol
pub mod Auth
pub mod Vpn
pub mod Http
pub mod Control
pub mod Start
