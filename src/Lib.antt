-- ===== src/Lib.antt =====
-- Gopherbot, a chat robot in Go that runs plugins, jobs and tasks: models of parts of its core, and
-- what is proved of them.
--
-- Brain (bot/brain.go, bot/aescrypt.go). `runBrain` is one goroutine that owns the status of every
-- long-term memory. `Brain.Loop` has its state (the provider, the map `memories`, and a log of the
-- answers sent on reply channels) and a function per event: `do_check_out`, `do_check_in`,
-- `do_update`, and `do_tick` for the part of the ticker's case that ages memories; `step` and `run`
-- put them together. `Brain.Datum` has `getDatum`, `storeDatum`, `encrypt` and `decrypt`. The
-- provider (robot.SimpleBrain), the cipher of Go's library and the random bytes are fields of
-- `Env`: nothing is assumed of them but in `Brain.Datum.Secrets`, whose parameters say what a
-- provider and a cipher do. A map is an association list, and the order of Go's loop over a map is
-- that of some list. `Brain.View` is the specification: one key's status and its grants, and the
-- moves that they may make.
--
-- MemBrain (bot/membrain.go): the provider in memory, with the law that the loop relies on.
--
-- LineBuffer (modules/linebuffer/linebuffer.go): the circular buffer of the history logs. A method
-- is a function of the buffer, `none` is a panic; sizes are natural numbers, where Go's ints could
-- be negative. `discard_lines` runs on fuel: it is called with
-- the number of stored bytes, and each round drops at least a byte. The specification is a list of
-- lines (`LineBuffer.Lines`) of which the oldest are evicted.
--
-- Subscriptions (bot/subscribe_thread.go) and Ephemeral (bot/ephemeral.go, bot/brain.go,
-- bot/robot.go): the tables of thread subscriptions and of short-lived memories, each call a
-- function of the table. strings.ToLower and strings.TrimSpace are parameters. Times are natural
-- numbers of nanoseconds; a time that lies ahead counts as no age, and is not stale in the source
-- either.
--
-- Access (bot/authorize.go, bot/elevate.go, bot/available.go, bot/allow_hidden.go, bot/builtins.go,
-- bot/robot.go, bot/tasks.go): who may call which command where. The plugins that authorize and
-- elevate are functions in `Services`; what the robot says and emits is part of the outcome.
--
-- MemHistory (bot/memhistory.go): the history logs in memory, over LineBuffer; pointers are
-- addresses of a heap. Exclusive (bot/exclusive.go, and the parts of bot/run_pipelines.go and
-- bot/pipeline_monitoring.go about `runQueues`): pipelines that run one at a time under a tag.
--
-- BrainCache (bot/brain_cache.go): the local cache in front of a cloud brain. The state holds the
-- files of the cache directory; a call takes the steps that succeed in it, so every file operation
-- and every call of the remote can fail. The remote is seen by the records that it accepted and by
-- its answers. `BrainCache.Sync` has `syncOutboxEntryLocked`, `BrainCache.Write` Store and Delete,
-- `BrainCache.Calls` the calls of a cache by other goroutines, `BrainCache.Loops` the loops over the
-- outbox, `BrainCache.Import` and `BrainCache.Hydrate` the records that come from elsewhere. Versions
-- wrap around at 2 ^ 64. The loops run on fuel, a round each. They lock the cache for one sending at a
-- time, so a round has the calls that come before the outbox is listed and those that come before the
-- entry is sent; `flush` is the run without any. From a round on in which no other call comes, and for
-- Flush nothing fails, enough rounds are the earlier ones, one for each entry and each call, and one
-- more. The specification is `BrainCache.Mirror`: each memory waits in the outbox or is what the remote
-- accepted last. A call of the remote that returns an error counts as not accepted.
--
-- BrainLock (bot/brain_lock.go): the lock of the running instance, over the cache and its versions;
-- `answer` is what the remote has of the lock when an instance starts. The encryption and the text
-- form of a lock are parameters.
--
-- Prompts (bot/replyprompt.go, and `handleMessage` of bot/dispatch.go down to the replies): the
-- waiters for a user's reply, with their channels, of which each holds one reply. A prompt is asked
-- at most three times.
--
-- RetVal and TaskRetVal (robot/robot_constants.go) are the result types, Prelude has what the
-- modules share, and Tests has the theorems listed below at concrete inputs.
--
-- Not modelled: mutexes (a call is one step under its lock, and a loop one step for each time that it
-- takes the lock), logging, `pauseRequest` and `quitRequest`, saving and restoring of the tables, the opening of an existing brain cache, the
-- choice of a prompt's regular expression and timeout, the running of pipelines, the rest of message
-- dispatch, connectors, brain providers, and the interpreters for extensions: these are input and
-- output for the most part, or bind libraries of others.
pub mod Prelude
pub mod RetVal
pub mod TaskRetVal
pub mod LineBuffer
pub mod Brain
pub mod Subscriptions
pub mod MemBrain
pub mod BrainCache
pub mod BrainLock
pub mod Prompts
pub mod Ephemeral
pub mod Access
pub mod MemHistory
pub mod Exclusive
pub mod Tests
