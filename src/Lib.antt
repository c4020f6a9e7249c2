-- ===== src/Lib.antt =====
-- optics-light, a library that gathers metrics in a process and hands them to backends.
--
-- A program opens lenses (counters, gauges, histograms, distributions and quantiles) by name in a
-- registry and records into them from any thread. A poller goes over from one epoch to the next,
-- which gives the recorders a second set of cells, and reads the first. Each part of the program
-- has a module:
--
--   Key        metric keys, optics_key_push and optics_key_pop of src/utils/key.c
--   Buffer     the growing buffer of src/utils/buffer.c
--   Htable     the open-addressed hash table of src/utils/htable.c and src/utils/htable.h
--   Rng        the xorshift generator of src/utils/rng.c
--   Lens       struct optics_lens and lens_alloc of src/lens.c, with a child for each kind:
--              Lens.Counter (src/lens_counter.c), Lens.Gauge (src/lens_gauge.c), Lens.Histo
--              (src/lens_histo.c), Lens.Dist (src/lens_dist.c), Lens.Quantile (src/lens_quantile.c)
--   KeyMap     what the registry asks of its table of names, and how Htable provides it
--   Optics     the registry of src/optics.c; Optics.Lenses has the list of src/lens.c
--              in memory, Optics.Chain what makes it a list, Optics.Links and Optics.Listed the
--              changes of the list, Optics.Defer the deferred frees; Optics.Names and Optics.Close put
--              the table of names, the list and the memory together; Optics.Reads has the reads
--   Poller     the poller of src/poller.c and src/poller_poll.c; Poller.Visit and Poller.Round
--              follow a poll through the lenses and the whole round
--   Normalize  optics_poll_normalize of src/optics.c and lens_<type>_normalize of the lenses
--   Rest       the tables of src/backend_rest.c; Rest.Get prints them for the HTTP service
--   Log        the log in memory of src/utils/log.c
--   Lock       the spin lock of src/utils/lock.h
--   Carbon     the connection of src/backend_carbon.c; Carbon.Dump has the lines that it sends
--   Crest      the HTTP service of src/utils/crest: Crest.Path (path.c), Crest.Router (router.c),
--              Crest.Req (req.c), Crest.Resp (resp.c), Crest.Service and Crest.Body (crest.c);
--              Crest.Router.Patterns has the map from patterns to resources that the tree stands for
--   Floating   C's double, as an interface with the laws of IEEE 754 that the lenses rely on
--   Qsort      what comparison functions return, and qsort of the C library as a parameter with the law
--              of the C standard: Lens.Dist, Rest (with Rest.Order) and Log give it their comparisons
--   Memory     arrays of bytes, C strings and strlcpy of libbsd
--   Prelude    shared names, Boolean tests and lists over the native numbers
--   Tests      each theorem at a concrete input, with a model of Floating
--
-- An operation keeps the name that it has in C. A struct is a record and a function that changes
-- one returns the new one; a pointer to a lens is a number, 0 for NULL. Bytes are numbers, a C
-- string is the list of its bytes without the nil, and a word of 64 bits wraps by % 2 ^ 64.
-- Option's none is NULL, an abort by a failed assertion, or a fault in memory, as each definition
-- says. A function that records under a lock is one step, and an interleaving of threads is a list
-- of steps: Lens.Counter has the increments and reads of one counter in any order. In Lock itself
-- each access of the word of a lock is a step of some thread.
--
-- Fuel: double_cap, the loop that doubles a capacity, is given one more than the length asked for,
-- which is always enough, since a capacity is at least 1 and each round adds at least 1. It has
-- no bound on capacities. In C they are words: a length above 2^63 doubles one to 2^64, which is 0,
-- and the loop never ends; up to 2^63 no doubling wraps. Buffer.double_word is the loop on words.
-- htable_resize takes a bound on the capacities that it tries. One is enough to read any table and
-- to put into one of fewer than eight keys; no bound is enough for every table, since the C code
-- itself does not return when nine keys share a hash. A traversal of the lenses is given more
-- than their number. The operations of the table therefore return an Option,
-- and what they do is stated for the runs that return.
--
-- Outside code is a parameter: double (Floating), qsort (Qsort), what malloc leaves in fresh
-- cells (Buffer.Heap), whether calloc has memory, the address that it gives to a lens, what the
-- backends do (Poller.Backend), what connections and sends return (Carbon.Answers), whether
-- libmicrohttpd takes a response (Crest.Resp.Mhd), what its clients send, and what printf makes of
-- a number (Rest.Get.Prints). Not modelled: the aborts of failed allocations in htable, buffer, the
-- backends and the service, the functions that free memory, clocks, threads, and errors.
pub mod Buffer
pub mod Carbon
pub mod Crest
pub mod Floating
pub mod Htable
pub mod Key
pub mod KeyMap
pub mod Lens
pub mod Lock
pub mod Log
pub mod Memory
pub mod Normalize
pub mod Optics
pub mod Poller
pub mod Prelude
pub mod Qsort
pub mod Rest
pub mod Rng
pub mod Tests
