-- ===== src/Lib.antt =====
-- libmcu: portable components for microcontrollers, written in C.
--
-- Modelled are the components that keep state of their own and compute with it:
-- * Bitops      modules/common/src/bitops.c, modules/common/include/libmcu/bitops.h
-- * Ringbuf     modules/common/src/ringbuf.c: a byte ring of a power-of-two capacity
-- * Msgq        modules/common/src/msgq.c: messages behind their sizes, in a ring, under a lock
-- * Pm          modules/pm/src/pm.c: callbacks around a power mode change, by priority
-- * Button      modules/button/src/button.c: debouncing, clicks and repeats
-- * Cleanup     modules/cleanup/src/cleanup.c: functions to call at the end, by priority
-- * Fsm         modules/fsm/src/fsm.c: a table-driven state machine
-- * Runner      modules/runner/src/runner.c: the current one of the application's runners
-- * Retry       modules/retry/src/retry.c: exponential backoff
-- * Ratelim     modules/ratelim/src/ratelim.c: a leaky bucket
-- * Pubsub      modules/pubsub/src/pubsub.c: topic filters; Pubsub/Pool: the pool of subscriptions
-- * Cobs        modules/common/src/cobs.c: byte stuffing
-- * Jobqueue    modules/jobqueue/src/jobqueue.c: a pool of threads; Jobqueue/System: their steps
-- * Ao          modules/ao/src/ao.c: active objects; Ao/Timer: modules/ao/src/ao_timer.c
-- * Metrics     modules/metrics/src/metrics.c: counters that outlive a warm start
-- * Actor       modules/actor/src/actor.c: actors, their dispatchers and the pool of messages
-- * Logging     modules/logging/src/logging.c: tags, levels, backends, the text of a log
-- * Base64      modules/common/src/base64.c: bytes as characters of six bits
-- * Hash        modules/common/src/hash.c: two hashes of a key
-- * FlashKvstore  ports/kvstore/flash_kvstore.c: keys and values appended to a flash partition
-- A component's file holds its state as a record and its functions under their C names, less the
-- component's prefix where the module says it (`ringbuf_write` is `Ringbuf.write`); a function that
-- updates its argument returns the new state beside its result. The files in a component's folder
-- hold the theorems, and Tests their use at concrete inputs. Base holds what all of them share:
-- words, lists as arrays, Boolean tests, and `Outcome` for what C leaves undefined.
--
-- The components meet in calls: Msgq keeps its bytes in a Ringbuf and calls its functions, and
-- Ringbuf rounds sizes by Bitops. FlashKvstore finds keys by Hash. The timers of Ao post to its
-- objects. The others stand alone; what they call of the application (a lock, a level, a clock, an
-- event or an action) is an argument or a field of the model.
--
-- Numbers: `size_t`, `long` and `int` have 32 bits, lowest byte first; a sum that may wrap is
-- written `u32 (...)`, a difference `sub32`. An error code is the 32-bit pattern of the negative
-- number. Loops are by structural recursion on the table, the samples or the calls, so no fuel is
-- needed; the loops of `move_right` and `move_left` count down the bound that the code gives them,
-- the length of the table. The scan of a topic filter has as fuel one more than the filter's
-- length, and takes a byte of it in each round. The search of an object's queue counts down the
-- queue's length, after which the code's two indices meet.
--
-- A call that takes a lock runs as a whole, so that the calls of several threads are a sequence of
-- calls; memory fences have no part in the model. What frees memory only is left out.
-- The threads of a job pool and of an active object take steps of their own: what one does under
-- the lock is a step, and the value of the semaphore counts what sem_post added and sem_wait took.
-- So do the sections of `actor_send` and of a dispatcher in Actor, where they are functions of
-- their own; the theorem on runs takes each call as a whole.
-- Not modelled: the timers and the start of the threads of actor, the decoding in place of base64,
-- the other modules (apptimer, bitmap, buzzer, cli, dfu, pubsub_tiny, trace), metricfs.c, the rest
-- of modules/common (crc, hexdump, strext, timext, xmodem), the driver interfaces, which are
-- headers and dispatch, and the other ports, which are glue to other systems. Of the flash, only
-- calls that succeed.
pub mod Base
pub mod Bitops
pub mod Cobs
pub mod Ringbuf
pub mod Msgq
pub mod Pm
pub mod Button
pub mod Cleanup
pub mod Fsm
pub mod Runner
pub mod Pubsub
pub mod Retry
pub mod Ratelim
pub mod Jobqueue
pub mod Ao
pub mod Metrics
pub mod Actor
pub mod Base64
pub mod Hash
pub mod Logging
pub mod FlashKvstore
