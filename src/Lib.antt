-- ===== src/Lib.antt =====
-- rosy is a Python library of nodes that find each other on the network, send topic messages to all
-- nodes that listen, and call services of nodes that provide them. This library models its core.
--
-- A node (src/rosy/node/node.py) is registered with a discovery (src/rosy/discovery/), which tells
-- it the topology of the mesh. To send, the peer selector takes the nodes of the topology that
-- listen to the topic or provide the service, load balancers choose among them, and the message
-- goes on a cached connection: through an outbox for topics, and from the service caller for
-- requests. At the other end a client handler decodes the messages and runs the callbacks; its
-- response goes back on the same connection.
--
-- Each file models the following.
-- Base: results with exceptions, state passing, dicts in insertion order, texts and integers.
-- Stream: the buffers and the lockable writer of src/rosy/asyncio.py; Tasks has the tasks that
--   write under its lock as a step relation, Ends the cancellation of a task and the close of a
--   writer.
-- Codec: src/rosy/codec.py, with the int.to_bytes and UTF-8 that it uses (Bytes, Utf8), integers
--   (Ints), strings, sequences and dicts (Containers), serializers (Serializers); Shrinks says that
--   decoders put no bytes back.
-- Message: the messages of src/rosy/node/types.py, topic/types.py and service/types.py; Codecs is
--   src/rosy/node/topic/codec.py and service/codec.py, Node is src/rosy/node/codec.py.
-- Builder: src/rosy/node/builder.py. Codec has the codecs that it puts together, and what they
--   carry (Wire); Node is build_node, build_peer_selector and the server providers.
-- Service: Caller is src/rosy/node/service/caller.py: `call` is begin_request up to the wait and
--   finish_request after it, `_handle_one_response` is handle_one_response, the end of
--   `_response_handler` is close_reader. Routing has runs of many calls as lists of events, Reach
--   the states that a new caller reaches; Remote joins the caller of one node and the handler of
--   another over the bytes between them.
-- Topic: Outbox is NodeOutbox of src/rosy/node/topic/outbox.py, Sender its manager and
--   src/rosy/node/topic/sender.py. Remote joins the sender of one node and the client handler of
--   another over the bytes between them: Schedule has the sends and the steps of the outbox's task
--   as events in any order, Losses, Streams and Flow what such a schedule writes and loses,
--   Delivery what the other node handles. It also joins the discovery, the topology manager, the
--   peer selector and the sender of one node (Listener, Selected), and all of these (Heard).
-- Mesh: src/rosy/specs.py and the topology manager of src/rosy/node/topology.py; Refines is its
--   specification without caches.
-- LoadBalancing: src/rosy/node/loadbalancing.py.
-- Peer: Connection is src/rosy/node/peer/connection.py, Selector is peer/selector.py, Removal the
--   TopologyChangedHandler of src/rosy/node/topology.py.
-- Servers: src/rosy/node/servers.py.
-- Node: src/rosy/node/node.py and callbackmanager.py; Handlers is the topic message handler, the
--   service request handler and the client handler. Lifecycle has the states of a node and
--   Advertised what the mesh has of it.
-- Discovery: src/rosy/discovery/base.py and zeroconf.py; Names the names that a node is registered
--   under, Announce the announcements of changes, Registry what a node registers with zeroconf,
--   what another node learns of it (Learned), and the loop of a monitor task (Monitor).
-- Procman: src/rosy/procman.py; a process is a number, and what is modelled is the list of
--   processes and the calls to the operating system in their order.
-- Cli: Args is the parser of arguments of src/rosy/cli/topic/send.py, Send the rounds of send.py
--   and of service/call.py, Listing is topic/list.py and service/list.py, Bag is src/rosy/cli/bag/
--   (file.py, record.py, play.py, info.py), Launch is src/rosy/cli/launch/, Speedtest the
--   measurements of speedtest.py.
-- Tests: the theorems at concrete inputs.
--
-- An asynchronous function is split where it waits for something that other tasks change; between
-- two such points a step is one function, and a run is a list of steps in any order. What a call
-- outside the program returns or raises is a parameter: the network, the clock, the random
-- generator, the serializers, zeroconf, asyncio's servers, and the callbacks of the program.
-- Exceptions are values; the state comes back beside them.
--
-- Loops over a list recurse on it. The search for a request id has as many rounds as there are ids,
-- as in the code. The client handler has fuel, one round for each message and one for the end of
-- the stream; a message takes a byte at least, so that one round more than there are bytes is
-- enough. The reader of bag files has fuel, one round for each message and one for the end of the
-- file. The task of an outbox is two kinds of events of a schedule, the taking of an entry and
-- its end. The loop of a discovery's monitor, those of the speed test and the polls of the node's
-- waits recurse on the list of what the environment does.
--
-- A set is a list without duplicates in the order of iteration. Time is a number of clock ticks.
--
-- Not modelled: argument parsers and printing, and with them src/rosy/argparse.py,
-- src/rosy/cli/main.py, utils.py, node/list.py and topic/echo.py; the length of a playback's
-- waits and the choice of the newest bag file; the demos; src/rosy/socket.py, which calls the
-- operating system; logging. A cancellation of a discovery's monitor counts as one step.
pub mod Base
pub mod Stream
pub mod Codec
pub mod Message
pub mod Builder
pub mod Service
pub mod Topic
pub mod LoadBalancing
pub mod Mesh
pub mod Peer
pub mod Node
pub mod Servers
pub mod Discovery
pub mod Tests
pub mod Procman
pub mod Cli
