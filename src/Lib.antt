-- ===== src/Lib.antt =====
-- OpsMx API forwarder (oes-birger): a model of the program and the proofs of what it promises.
--
-- The forwarder lets a client reach HTTP services behind a firewall. An agent (app/forwarder-agent)
-- connects to the controller (app/forwarder-controller) and keeps a gRPC stream open, the tunnel. A
-- client calls the controller's service API; the controller finds a connected agent that offers the
-- endpoint, sends the request over the tunnel as a message, and the agent makes the HTTP call and
-- sends the response back as a head and packets, which the controller writes to the client. The
-- tunnel is symmetric: an agent can call endpoints of the controller in the same way. A control API
-- issues the credentials of agents, clients and operators.
--
-- Which file models which part:
--
--   Prelude         tests, lists, maps as association lists, int32, results with errors and panics
--   Text            what is used of Go's strings and net/textproto
--   Channel         a Go channel: what was sent on it, and whether it is closed
--   Jwt             internal/jwtutil: signed headers and service tokens
--   Tunnel          internal/tunnel: Messages (tunnel.proto), Headers (MakeHeaders, CopyHeaders),
--                   Request (RunHTTPRequest), Cancel (cancel.go), AgentInfo (agentinfo.go)
--   Session         internal/util/httpsession.go
--   Route           internal/tunnelroute: Direct (one route), Tracker (all of them), Roster (what the
--                   table of them promises, as bags of routes)
--   Service         internal/serviceconfig: Handler (runAPIHandler, handleTunnelControl),
--                   Credentials (extractEndpoint), Endpoints (EndpointsToPB, ConfigureEndpoints),
--                   Generic (generic_endpoint.go), Aws (awsapi.go), Kubernetes (kubernetes.go),
--                   Outgoing (what the three have in common), Config (config.go), Failure
--                   (internal/util/http.go)
--   Kubeconfig      internal/kubeconfig
--   Control         handleHTTPControl of app/forwarder-controller/grpc-server.go and of
--                   app/forwarder-agent/grpc.go; its children follow a request and a response through
--                   the programs, and Locked the lock of the sessions
--   Connection      EventTunnel of app/forwarder-controller/grpc-server.go: one connection of an agent,
--                   with Peer (its name, main.go); Agent is runTunnel of app/forwarder-agent/grpc.go
--   Controller      the whole controller: its connections, their goroutines and the calls of the service
--                   API as turns in any order, and the states that it comes to
--   Authority       internal/ca/ca.go
--   Fwdapi          internal/fwdapi
--   Cnc             app/forwarder-controller/cncserver
--   Config          Controller and Keys (app/forwarder-controller/config.go, main.go), Agent
--                   (app/forwarder-agent/config.go, main.go)
--   Startup         main.go of app/forwarder-controller and, in Agent, of app/forwarder-agent, with the
--                   listeners of the other packages
--   Webhook         internal/webhook
--   Secrets         internal/secrets
--   GetCreds        app/forwarder-get-creds
--   MakeCa          app/forwarder-make-ca
--   Tests           runs at concrete inputs
--
-- State is passed explicitly. A mutable object that several parts share, a channel or a route, is a
-- reference into a store; a map is an association list, and where the source ranges over one the list
-- is in the order of the range. A call that can fail returns a Result: a value, an error or a panic.
-- An operation under a lock is one step. A send on a channel stands for the moment at which it
-- completes: who waits for whom, and so a deadlock, is not part of the model, except in
-- Control.Locked, where a send is begun and completed. The time, a random
-- number, the outcome of a read or a write and of a call of a library are arguments. All loops run
-- over a list that is given or a number of attempts, so none needs fuel: a body that is still being read is a list of reads
-- without an error yet.
--
-- Not modelled: listening, TLS and gRPC themselves, logging and metrics, flags and YAML files, JSON
-- and protobuf encodings. Signatures, certificates and tokens are parameters; where a theorem relies
-- on them, their documented behaviour is a hypothesis (Jwt.IsSound, Authority.Issued.IsFaithful,
-- Authority.SelfSigned.ReadsBack, Service.Kubernetes.Context.FindsLeaf).
pub mod Prelude
pub mod Text
pub mod Channel
pub mod Jwt
pub mod Tunnel
pub mod Session
pub mod Route
pub mod Service
pub mod Control
pub mod Connection
pub mod Authority
pub mod Fwdapi
pub mod Cnc
pub mod Config
pub mod Controller
pub mod GetCreds
pub mod Kubeconfig
pub mod MakeCa
pub mod Secrets
pub mod Startup
pub mod Webhook
pub mod Tests
