-- ===== src/Lib.antt =====
-- ma-dlna is a bridge from UPnP/DLNA to Music Assistant: a control point hands it the address of an
-- audio source, an encoder (ffmpeg) turns the source into one live stream, and players fetch that
-- stream over HTTP. This library models the parts that keep the state of a playback and proves what
-- keeps them correct while handlers, encoder goroutines, timers and callbacks interleave.
--
-- The parts, and where they stand. Paths are those of the repository.
--   Stream (internal/stream): the streamer, one stream for each session, and its encoder runs, the
--   generations. A pause, seek or resume replaces the generation of a stream.
--     Stream/Ring: `RingBuffer` of ringbuffer.go, the last bytes of the output.
--     Stream/Gen: `streamGeneration` of stream.go with its small methods: the presentation clock, the
--     init segment, the clients' map.
--     Stream/Replay: what `ServeHTTP` sends a client that attaches, within the replay budget.
--     Stream/Streamer: `Start`, `Stop`, `StopIfGeneration`, `Pause`, `Seek`, `Resume`, `Elapsed`,
--     `MarkPlaybackAcceptedIfGeneration`, `IsRunning`; Streamer/Run is the goroutine `run` with
--     `broadcast` and the startup timeout, Streamer/Serve the request handler, Streamer/Steps all
--     atomic sections as one step function, Streamer/Others what they leave of an encoder's output,
--     Streamer/Twice a chunk that meets a client that attaches.
--     Stream/Stderr: `redactStderr` and `isURLBoundary`, the redaction of the encoder's error output.
--   Session (internal/session/session.go): the sessions, their states, and the `Manager`.
--     Session/Types: the records. Session/Metadata: the DIDL-Lite metadata.
--     Session/Manager: the sections under `m.mu`; Manager/Evict is `CreateWithBase` with `evictLocked`,
--     Manager/Sections all sections as one step function.
--     Session/Api: what the manager calls of the streamer, as a record of operations with the laws that
--     it relies on. Session/Ops: the methods that also call the streamer or the error notifier, over
--     any such record. Session/Link: the streamer as such a record, with the proof of the laws.
--     Session/StreamUrl: the address of a stream, built by the manager and read by the streamer.
--   Upnp (internal/upnp): Upnp/PosCache is `posCache` of upnp.go, which smooths the playback position that
--   the backend reports, with `stateGuard` and `cacheBackendPosition`; Upnp/IdleDebounce is `idleDebounce`,
--   which tells a playback that has ended from a short silence.
--     Upnp/Events: the subscribers to events (`eventSubscriber`) with their queues, workers and timers;
--     Events/Serve is `serveEvent` with `validateCallback`. Upnp/Rendering: SetVolume and SetMute of
--     `serveRenderingControl`. Upnp/Xml: `escapeXML` and `unescapeXML`.
--     Upnp/Device: the actions for AVTransport over the session manager. Device/Transport: Stop, Pause,
--     Seek, SetAVTransportURI and the small actions of `serveAVTransport`; Device/Play: Play, with
--     Play/Late for its tests after each call of the backend; Device/Waits: `waitForBackendPlaying` and
--     `waitForBackendNotPlaying`; Device/Sync: `syncCurrentSessionFromBackend` and
--     `playbackPositionForSession`; Device/Monitor: the goroutine of `startPlaybackMonitor`.
--   Maadapter (internal/maadapter/direct.go): the client of Music Assistant, its calls and the status of
--   the player.
--     Maadapter/Frame: `readServerFrame` and the bytes of `writeClientFrame`, the frames of the
--     WebSocket. Maadapter/Message: `readWSTextLocked`, which puts a message together from its frames and
--     answers pings. Maadapter/Reply: `sendWSCommandLocked`, which waits for the reply with its id.
--     Maadapter/Call: `callMAResultWithin` with the lock, the connection, its handshake and its
--     authentication.
--     Maadapter/Status: `getStatusWithin` and the status that it makes of a queue, `PlaybackPosition`, and
--     the commands to a queue.
--   Config (internal/config): `Validate`; Config/Load is `Load` with the defaults and the UUID,
--   Config/Security the policy for the addresses of a source (security.go).
--   Base: numbers, lists, texts, association lists for Go maps, and what
--   the program uses of Go's texts and URLs (Base/Go).
--
-- How code becomes definitions. A section under a lock is one step from a state to a state, with the
-- callbacks that it makes. Streams and generations are shared by pointer, so the streamer keeps them
-- in a store by address, and a handler that holds an old pointer holds an old address. Where a
-- method releases its locks or waits, it takes a function (`env`, `wait`, `before`, `after`) for all
-- that other goroutines do meanwhile, and where it holds no lock over several steps, one such function
-- for each gap; a schedule is a list of sections in any order. In Session/Link these functions are
-- arguments too; the laws are shown where what others do there registers and unregisters no stream and
-- installs no generation. The rounds of a wait for the backend have what others do before each poll
-- and while it runs.
--
-- Numbers. The write counter of the ring and the generation ids are 64-bit, with their wrap-around
-- written out; theorems that need it absent say so. Times and durations are integers without a
-- bound. Sizes of the configuration are natural numbers, as `Config.Validate` refuses negative ones.
-- The configuration is read once and does not change.
--
-- Loops are structural recursion, but for the eviction loop, which has as many rounds as there are
-- sessions, and one more, as each round that goes on takes a session out, and the loop of the
-- redaction, which has as many rounds as the line has characters, and one more. The loops that read
-- frames and messages have as many rounds as there are bytes to come in, and one more, as each round
-- that goes on takes two bytes or more.
--
-- Arguments of the definitions stand for what is not in the repository: the id and token drawn at
-- random, the clock, the XML decoder and the URL parser, the token validator, the encoder's output
-- and end, and which ready case a `select` takes; for the client of Music Assistant the random
-- masks, JSON, the dialer, the handshake's texts and what the connection takes and delivers, whose
-- end stands for a connection that ends and for a deadline that passes, and the conversions of
-- floating-point numbers; for the configuration the file, the YAML decoder and the resolver of host
-- names; for the device the bodies of events, the number that `Sscanf` reads, and whether a call of
-- the backend succeeds. The callbacks are set, as main.go does. Go's `range` over a map is taken in
-- the order of the association list. The reads of `Elapsed` are taken at one moment, and so are
-- those of one transport action but for the rounds of its waits, which have clocks of their own and
-- end where the list of rounds does, as if the time were over.
--
-- Not modelled: the building of the encoder's arguments, its progress lines, and the write loop of a
-- client in stream.go; SSDP, the HTTP endpoints, the SOAP texts and the descriptions of the UPnP
-- device (internal/upnp); the media that `PlayMedia` sends and the redaction of the log
-- (internal/maadapter); the start of the program (cmd).
pub mod Base
pub mod Stream
pub mod Session
pub mod Upnp
pub mod Maadapter
pub mod Config
