-- ===== src/Lib.antt =====
-- A verification library for the TrogonEventStore client (trogon-eventstore/src).
--
-- The program. A client is made from a connection string (grpc.rs, `FromStr for ClientSettings`). A task
-- of its own, `connection_state_machine`, owns the one `NodeConnection` and serves messages: an operation
-- asks it for a channel, and a failed operation reports to it (`handle_error`). When it needs a node, the
-- connection asks candidates for their gossip (`node_selection`, operations/gossip.rs), chooses a member
-- (`determine_best_node`), and dials it by asking for its features (server_features.rs). On that channel
-- run the operations of commands.rs: appends and the append session (batch.rs), reads, deletes, the
-- catch-up subscription (`Subscription`) and the persistent subscriptions, whose management falls back
-- to HTTP (http) on an old server.
--
-- The files.
--   Base            the shared tests, results, lists, texts and machine integers
--   Uuid            event_store/generated.rs, identifiers on the wire
--   Position, Types types.rs, positions and the plain types
--   Errors          types.rs, `Error` and `from_grpc`
--   Gossip          operations/gossip.rs
--   Features        server_features.rs: versions, features, `supported_methods`
--   Settings        grpc.rs, `ClientSettings`; Settings/Parser is `from_str` and `parse_from_url`
--   Env             what the connection asks of the outside
--   Selection       grpc.rs, `node_selection` and `determine_best_node`
--   Connection      grpc.rs, `NodeConnection::new` and `next`
--   Machine         grpc.rs, `connection_state_machine` and `handle_error`
--   GrpcClient      grpc.rs, `GrpcClient::execute` and `current_selected_node`; `execute_among` lets the
--                   machine serve other messages while the action runs
--   Request         request.rs, and commands.rs, `new_request`
--   Batch           batch.rs, the task of `BatchAppendClient::new`; Batch/Session is commands.rs,
--                   `batch_append`, around it
--   Events          types.rs and event_store/generated.rs, the events received
--   Proposals       types.rs and event_store/generated.rs, the events written; observability.rs,
--                   `inject_event_context`
--   Subscription    commands.rs, `Subscription`
--   Streams         commands.rs, `new_request` and the requests; Streams/Writes are the commands,
--                   Streams/Reading is `ReadStream`, Streams/Described is client.rs, the metadata of
--                   streams
--   Persistent      types.rs and event_store/generated.rs, the settings of persistent subscriptions;
--                   Persistent/Positions and Persistent/Info are what the server tells of one,
--                   Persistent/Reading is commands.rs, `PersistentSubscription`,
--                   Persistent/Commands and Persistent/Management are the commands, and
--                   Persistent/Http is http/mod.rs and http/persistent_subscriptions.rs
--   Projections     projection_client.rs; Projections/Values is `parse_value`,
--                   Projections/Statistics the stream of statuses
--   Tests           runs of the theorems at concrete inputs
--
-- The style. A text is the list of its characters' codes. State is passed along: a function takes the
-- state of the outside and returns the next one. A `oneshot` sender is the number of its request. A panic
-- is a value of its own, or `none` where a comment says so. Calls of other crates (`url`, `uuid`, `rand`,
-- `tonic`, `tokio`, `chrono`) are fields of
-- `UrlLib`, `Env`, `Outside`, `Server`, `Web`, `Tracing` and `Nom`. Those of `Env`, `Outside` and `Server` change
-- the state of the outside; an HTTP call of `Web`, and the action of `execute`, only answer.
--
-- Fuel. `NodeConnection::next` runs on twice its number of attempts and two rounds more; Connection/Total
-- proves that this is enough. `Subscription::next_subscription_event` may go on forever, so its fuel is
-- an argument.
--
-- The reads of `Streams/Reading` and `Persistent/Reading` run over the list of their responses; the loop of
-- `ReadStream::next` takes fuel, for which Streams/Reading proves that more than the number of responses is
-- enough. `parse_value` runs its stack on fuel as well: Projections/Values/Parsed gives a bound for each value.
--
-- Not modelled: TLS and the HTTP client, spans and metrics, the generated protocol code, the unary
-- operations of operations/mod.rs, the fields of stream metadata, the statistics of the extras
-- crate, the macros and the examples. The panics on a host that makes no URI (`to_hyper_uri`) and on a
-- connection name that is no header value in the gossip call are left out.
pub mod Base
pub mod Uuid
pub mod Position
pub mod Proposals
pub mod Types
pub mod Errors
pub mod Gossip
pub mod Features
pub mod Settings
pub mod Env
pub mod Selection
pub mod Connection
pub mod Machine
pub mod Batch
pub mod Events
pub mod Subscription
pub mod Streams
pub mod Persistent
pub mod Projections
pub mod Tests
pub mod GrpcClient
pub mod Request
