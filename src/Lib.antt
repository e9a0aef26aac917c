-- ===== src/Lib.antt =====
-- ranch: the message bus, its transactions and stores, the STOMP server, the Fabric endpoint between
-- them, services, and the HTTP router.
--
-- The parts and how they interact. Code sends messages on named channels of a bus; a channel keeps
-- its handlers and schedules them for each message, and FireContext waits until what was scheduled
-- has run. A transaction sends requests on channels and collects the responses. A store holds items
-- and tells its streams of changes; a galactic store mirrors one of a broker through a sync channel.
-- The STOMP server runs one goroutine for its maps, to which the connections send events, and each
-- connection is a state machine over the frames of one client. The Fabric endpoint forwards channels
-- of the bus to topics that clients are subscribed to, and passes requests of clients on to channels,
-- where services of the registry answer them; routes of its router take channels over. Plank serves
-- HTTP through a router with middleware.
--
--   Prelude       Boolean tests, lists over native numbers, Go maps as association lists
--   Bus/Activity  bus/channel.go, channelActivity: begin, end, waitQuiescentAfter
--   Bus/Channel   bus/channel.go, Channel: dispatchContext, subscribeHandler, unsubscribeHandler
--   Bus/Channel/Broker  the same file: the subscriptions of a channel to destinations of brokers
--   Bus/Delivery  bus/eventbus.go, wrapMessageHandler; bus/message_handler.go: HandleContext, Close
--   Bus/Events, Hearing  bus/eventbus.go: sending and listening, and which messages reach whom
--   Bus/Events/Monitor  the same file, transportMonitor
--   Bus/Manager   bus/channel_manager.go: channels by name, galactic and local
--   Tx            bus/tx/transaction.go: the API, CommitContext, and the callbacks as events
--   Tx/Outcome, Responses, Order, Refusals  runs of a transaction
--   Stomp/Frame   frames; the headers of go-stomp are a parameter with three laws
--   Stomp/Config  stompserver/config.go
--   Stomp/Connection  stompserver/stomp_connection.go: state, middleware, versions, heart-beat
--   Stomp/Connection/Handlers  the handlers of the commands
--   Stomp/Connection/Loop, Phases, Trace  run: one round for each thing that its select may take,
--     and the server's Close between rounds
--   Stomp/Server  stompserver/server.go: handleConnectionEvent, run, sendFrame, sendFrameToClient
--   Store         store/store.go: put, remove, populate, reset, notification of the streams
--   Store/Mirror  the same file: what a stream hears of calls that do not overlap
--   Store/Races, Calls  store/store.go: puts and removals that overlap, by their parts
--   Store/Streams store/store_stream.go, store/mutation_store_stream.go
--   Store/Sync    store/store.go, initGalacticStore: what comes on the sync channel
--   Store/Manager store/store_manager.go
--   Store/Service store/store_sync_service.go: clients, their requests, the listeners of stores
--   Store/Service/Listeners, Replica  runs of the sync service, and a galactic store that follows it
--   Model         model/request.go, model/response.go
--   Fabric        transport/fabric/endpoint.go, config.go: subscriptions and their forwarders
--   Fabric/Forwarders, Balance  the events that reach the endpoint, and the streams over a run
--   Fabric/Replies  the same file: forwardMessage, bridgeMessage
--   Fabric/Router, Routes  transport/fabric/router.go: routes, and what they leave behind
--   Fabric/Tracking, Closing, Shutting, Publishing, Silence, Lifetime  the same file: the streams of
--     routes over a run
--   Service/Core, Answers  service/fabric_core.go: the ways to answer a request
--   Service/Registry, Streams  service/service_registry.go, service_lifecycle_manager.go
--   Plank/Patterns, Router, Mux  plank/pkg/routing/router.go: patterns, routes, and the kept tables
--   Plank/Bridges, Endpoints  plank/pkg/server/rest_bridge_registry.go
--   Plank/Middleware, Chains, Restore  plank/pkg/middleware/middleware_manager.go
--   RateLimit     plank/pkg/ratelimit/limiter.go: visitors, buckets and the clean-up
--   RateLimit/Visitors, Buckets  the same file: who is taken away, and whose bucket a request uses
--
-- How it is modelled. What is done under a lock is one step, so operations are functions of the
-- state, and interleavings are lists of steps. A put or a removal calls the streams after it has
-- given up its lock: Store/Races has the two parts as steps of their own, with others between
-- them, and Store has them in one function, for calls that do not overlap. What the code calls in
-- a handler, a socket, the bus or a broker is a list of effects beside the new state; what these
-- answer is an argument. Callbacks, payloads and errors from outside are numbers, since the code
-- compares them at most. Goroutines share handlers, streams and routes by pointer, so these are
-- known by an address. http.ServeMux is an argument that chooses one of the patterns that were
-- registered. The registration of a route in Fabric is two steps, since it gives up its lock
-- between them. Integers of 64 bits wrap where they are counted up.
--
-- Bounds and fuel. The loops of waitQuiescentAfter run on fuel 2 at each wake: a round either returns,
-- waits or moves the target to the counter, after which the next one returns or waits. The digits of a
-- message id n are printed on fuel n + 1, and each digit divides the number by ten.
--
-- Not modelled: sockets, listeners and timers, logging, JSON and reflection, which are the runtime's
-- and other packages' work; the bridge to brokers, the plank HTTP server and its command line, and calls
-- of REST services, which use the parts above. That ServeMux refuses patterns that conflict, and that
-- middleware may return something else than a function, are not modelled. Nor is it that the server
-- closes a connection while it handles a frame, that sending an event may time out, and that a
-- transaction closes the listener of a request after its answer: answers may come any number of times.
pub mod Prelude
pub mod Bus
pub mod Tx
pub mod Stomp
pub mod Store
pub mod RateLimit
pub mod Fabric
pub mod Model
pub mod Service
pub mod Plank
