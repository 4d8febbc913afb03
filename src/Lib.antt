-- ===== src/Lib.antt =====
-- A model of the agent messaging library of this repository: agents send each other tasks over a
-- publish/subscribe network, through a channel that orders messages by cause (SDS), and filter, pay
-- for, delegate and stream them. The model follows the crates' sources; the theorems are about the
-- model's definitions, which carry the sources' names in this language's spelling.
--
-- The parts and how they interact. `Transport` publishes bytes to topics. The channel of `Sds` sits on
-- it: `send` stamps a message with the Lamport clock and its causal history, `receive` drops what its
-- Bloom filter has seen, buffers what lacks a dependency and hands over the rest in causal order, and
-- filters that peers attach acknowledge what was sent. `Retry` repeats a failing `send_reliable`. The
-- node polls the channel for tasks (`Node.Poll`), asks the trust list (`Trust`) about their senders,
-- has payments verified (`Node.Payment`) and notes tasks in sessions (`Node.Session`). Delegation
-- (`Node.Selection`, `Node.Delegation`) picks a peer from the live map (`Node.Peers`) by load and
-- trust, sends it a task (`Task`) and polls for the response; the peer answers by `Node.Respond`, and
-- both write rows to the log (`Node.History`). A result may come as numbered chunks
-- (`Node.Streaming`). The live map is filled by signed announcements (`Presence`) that carry the
-- sender's load, sealed for each agent that it trusts (`Crypto`); `Node.Discovery` sends and hears
-- them, and collects the cards that were announced or that a registry (`Registry`) lists. Payments are
-- verified on a chain, one of which is `Execution.StatusNetwork`. A daemon (`Daemon`) runs a node and
-- serves the requests of clients on its machine; its inbox is served by `Agent`.
--
-- Files and sources, under crates/logos-messaging-a2a-:
--   Transport.antt        transport/src/lib.rs: the trait as a record of operations, the errors
--   Sds/Message.antt      transport/src/sds/message.rs
--   Sds/Bloom.antt        transport/src/sds/bloom.rs; the crate bloomfilter is `BloomApi`, `BloomLaws`
--   Sds/State.antt        transport/src/sds/channel.rs: configuration, state and its small methods
--   Sds/Channel.antt      transport/src/sds/channel.rs: `receive` with all it calls
--   Sds/Exec.antt, Sds/Send.antt   the methods of channel.rs that use the transport, as programs over
--                         the channel and the transport's state that keep their effects on an error
--   Transport/Memory.antt transport/src/memory.rs
--   Retry.antt            core/src/retry.rs, node/src/retry.rs
--   Trust.antt            core/src/trust.rs: the `BTreeMap` is a list in the order of its keys;
--                         Trust/File the file that holds it
--   Task.antt             core/src/task.rs, core/src/topics.rs
--   Registry.antt         core/src/registry.rs
--   Crypto.antt           crypto/src/lib.rs
--   Presence.antt         core/src/presence.rs: sealed status, signed announcements
--   Node/Peers.antt       node/src/presence.rs, the types and load buckets of core/src/presence.rs
--   Node/Selection.antt   node/src/delegation.rs up to the picked peer, core/src/delegation.rs
--   Node/Delegation.antt  node/src/delegation.rs from the picked peer to its answer
--   Node/Streaming.antt   node/src/streaming.rs
--   Node/Session.antt     node/src/session.rs, session methods of node/src/lib.rs and tasks/send.rs
--   Node/Payment.antt     node/src/payment.rs, node/src/tasks/payment.rs; Payment/Interleaving splits
--                         verify_payment at its await
--   Execution/StatusNetwork.antt   execution/src/status_network.rs, the errors of execution/src/lib.rs
--   Node/Poll.antt        node/src/tasks/poll.rs, core/src/envelope.rs
--   Node/Payload.antt     node/src/tasks/helpers.rs, node/src/storage.rs
--   Node/Encryption.antt  node/src/tasks/helpers.rs: encryption and decryption of a task by `Crypto`
--   Node/Outgoing.antt    node/src/tasks/send.rs
--   Node/Respond.antt     node/src/tasks/respond.rs
--   Node/History.antt     node/src/history.rs, the rows of node/src/delegation.rs
--   Node/Announcing.antt, Node/Discovery.antt   node/src/discovery.rs
--   Daemon/Frame.antt, Protocol, Wire, Server, Connection   cli/src/daemon: frame.rs, protocol.rs,
--                         server.rs, client.rs
--   Agent.antt            cli/src/agent.rs: how the tasks of one poll are served
--   Cli.antt              cli/src/trust.rs, the trust actions of cli/src/cli.rs
--   Node/Load.antt        node/src/lib.rs: the counter of running tasks
-- The modules below each of these hold its theorems; Examples holds runs and the theorems at concrete
-- inputs; Prelude holds lists, words, dictionaries, sorting and the order of strings.
--
-- Conventions. A method is a function of the state that returns the new state beside its result. A
-- method runs with no other between its steps: locks and awaits are not interleaved, but for
-- payments. Numbers are natural; sums of 64-bit and 32-bit counters wrap as in a release build
-- (`% 2 ^ w`) where the source does not saturate, saturating operations are minima, and metrics do not
-- wrap. Durations are in milliseconds, clock readings are arguments, a false-positive rate is a
-- fraction. A hash map is an association list; a theorem about its listing says which entries it has,
-- not in which order. A file that is read by lines is the list of its lines. Text order is that of
-- Rust's strings. A cut in a text counts characters, the texts that are cut being hexadecimal or
-- ASCII. The text of an error of serde is the name of the crate; an error of `delegation.rs` is a constructor with the values that its text shows.
--
-- Parameters: SHA-256 (`digest`), serde JSON (`encode`, `decode`, ...), bloomfilter, the random numbers,
-- UUIDs, the clock, the transport, the chain and storage; X25519, ChaCha20-Poly1305, hex and base64
-- (`CryptoApi`), ECDSA over secp256k1 (`SignatureApi`), what a subscription holds (`drain`), a chain's
-- node over HTTP (`post`), JSON values (`JsonApi`), toml and the files of the trust list (`Toml`, `Files`), and of the
-- daemon's node what needs the network. Their laws, where a theorem needs any, are named hypotheses, and the examples give instances that satisfy them.
--
-- Bounds and fuel. The loop of `resolve_buffered` has the length of the buffer and one more as fuel,
-- which is enough since every round but the last delivers a message. All other loops are structural.
-- The ceilings are the source's: 256 messages in each buffer, 1024 acknowledgement counters, twice the
-- causal history, 64 task ids, 1024 unread messages of a subscriber in memory.
--
-- Not modelled: network and FFI transports, storage backends, metrics, the command line
-- but for the trust commands and what `agent run` does with the tasks of a poll, the MCP server and
-- the bindings; of the modelled crates, the default path of the trust file, opening and reading of the log file, the daemon's socket, and log lines.
pub mod Prelude
pub mod Transport
pub mod Sds
pub mod Retry
pub mod Trust
pub mod Task
pub mod Registry
pub mod Crypto
pub mod Presence
pub mod Node
pub mod Execution
pub mod Daemon
pub mod Agent
pub mod Cli
pub mod Examples
