-- ===== src/Lib.antt =====
-- The host side library for reglet plugins: what plugins may ask of the host, how the host decides,
-- and how it keeps the plugins it has locked. Go strings are lists of bytes (Base.Text), `int` is a
-- signed integer of 64 bits (Base.Int), and a map is an association list (Base.Map).
--
-- - Policy (policy/policy.go): grant sets are compiled once per pointer (`compile`, `get_compiled`)
--   and judge requests for the network, files, variables, commands and keys (`check_network` and the
--   others). Filepath is package path/filepath as far as it is called; Engine holds the state;
--   Compile, Ports, Paths, Cache and Decisions prove. The glob matcher (doublestar) and
--   filepath.EvalSymlinks are parameters (`World`), and so is what the pointers hold.
-- - CapabilityChecker (capability_checker.go): a plugin's grants, the checks on the policy, and, in
--   Middleware, the handler wrapper that judges a host call by its function name and payload. The
--   JSON decoders and url.Parse are parameters (`Decoders`).
-- - Registry (registry.go, middleware.go, errors.go, context.go, handler.go, bundle.go): the table of
--   host functions, built from options, and the dispatch of calls through the middleware.
-- - ExecSecurity (exec_security.go): the filter on environment variables and the detection of
--   commands that run code. strings.ToUpper beyond ASCII is a parameter.
-- - Exec (exec.go): how a command is prepared, run and reported, on ExecSecurity and BoundedBuffer.
--   The process is a parameter.
-- - HostFunctions (tcp.go, smtp.go, http.go, dns.go): the calls that a plugin makes to the network, on
--   Netutil: Guarding says where a check lets a connection go. Connections, net/http and the
--   resolvers are parameters.
-- - Netutil (netutil/): Netfilter judges an address (`validate_address`), with the parsers and the
--   resolver of package net as a parameter (`Net`); LimitedReader cuts a reader off at a limit;
--   Retry is the transport that retries (netutil/retry.go); SecureDialer pins the address that it has
--   validated for a host (netutil/secure_dialer.go).
-- - BoundedBuffer (bounded_buffer.go): the buffer for the output of commands.
-- - Gatekeeper (capability/gatekeeper/gatekeeper.go): what is granted of the grants that are missing.
--   Prompting has the loops of promptForCapabilities, Granting has GrantCapabilities; Items and Runs
--   give the loops as one relation over items. hostfunc.GrantSet is a parameter (`Abi`).
-- - Plugin (plugin/): Spec parses plugin declarations (plugin/entities/plugin_spec.go); Lockfile is
--   the lockfile with its entity (plugin/entities/lockfile.go), and in Lockfile.Service the service
--   (plugin/lockfile_service.go) and the file on disk (plugin/filesystem/). The YAML coding is taken
--   to be faithful, and the answers of the operating system are inputs (`Machine`).
-- - Plugin.Values (plugin/values/): digests, names and references.
-- - Plugin.Repository (plugin/repository/fs_repository.go): the cache of plugins on disk, a map from
--   paths to files; Paths, Files and Confined say where its
--   files are, and Entries and Refinement give it as an abstract cache.
--   Listing has List, and takes what filepath.Walk visits as an input. The JSON coding and the answers
--   of the operating system are parameters (`Json`, `Machine`).
-- - Plugin.Service (plugin/service.go, plugin/resolvers/, plugin/services/): resolves, checks and
--   locates a plugin over the interface `PluginRepository`, which Cache fills by the one on disk. The
--   registry and the verifier of signatures are parameters.
-- - Risk (capability/risk.go): the risk level of a grant set.
-- - Grants: the data of package hostfunc that the host reads.
--
-- The capability middleware calls the checker, the checker the policy, and the registry wraps its
-- handlers in the middleware: states are passed from call to call, so an order of calls is an order
-- of arguments. Only `read_all` runs on fuel, and any fuel above the length of the text is enough.
-- `decimal_digits` prints with 20 digits, which any 64-bit number has at most.
--
-- Not modelled: the extractors, the middleware for user agents, logging and panics, the
-- normalization of URLs, and the grant store with the terminal prompter; the resolver of versions,
-- the templates, the parsers, and the clients for OCI and signing, which call libraries; and the
-- WebAssembly glue.
pub mod Base
pub mod BoundedBuffer
pub mod CapabilityChecker
pub mod Exec
pub mod ExecSecurity
pub mod Gatekeeper
pub mod Grants
pub mod HostFunctions
pub mod Netutil
pub mod Plugin
pub mod Policy
pub mod Registry
pub mod Risk
