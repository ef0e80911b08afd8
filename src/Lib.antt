-- ===== src/Lib.antt =====
-- A verification library for the core packages of go-zero.
--
-- The models are functions over explicit state: a method of a Go struct becomes a function from the
-- record of its fields to the new record and the results. A method that holds its object's lock
-- from start to end is one step. A panic is the value `none` of an `Option`, or an error of a
-- result type. Clock readings, random numbers, hash functions and callbacks are arguments.
-- Integers are natural numbers; where a counter of 64 bits can wrap, the wrap is written out.
--
-- Prelude: shared names, Boolean tests, lists by native indices, and windows read round the end of
--   a list.
-- Collection (core/collection): Collection.Ring is ring.go, Collection.Fifo is fifo.go,
--   Collection.Bucket and Collection.RollingWindow are rollingwindow.go; the sum of a bucket is of
--   an abstract type in place of float64. Collection.SafeMap is safemap.go, over the maps of
--   Prelude.Maps. Collection.TimingWheel is timingwheel.go: its handlers on a memory of entries, with
--   the invariant in Home, Kept and Linked, the ticks ahead of a task in Ahead, a tick in Scan, Shift,
--   Tick and Turn, the calls in Calls, Moves and Drained, and the life of a task in Life.
--   Collection.Cache is cache.go, which sends its calls to a timing wheel in order: its list of evicts
--   in Recent and Ordered, its data in Agrees, the operations in Holds, Refine and Looks, sequences of
--   calls in Runs.
-- Codec (core/codec): aesecb.go. Codec.Blocks is about the loop over the blocks, Codec.Padding about
--   the padding, Codec.RoundTrip about both directions.
-- Hash (core/hash): consistenthash.go. Hash.Keys is about the sorted keys, Hash.Successor about the
--   search in them. Hash.Points, Hash.Added, Hash.Removed, Hash.Gone and Hash.Calls are about the ring
--   and what a call makes of it, Hash.Nearest and Hash.Runs about what Get answers, with the
--   hypothesis that no two points of the nodes in use have one hash. Hash.Shared and Hash.Additions
--   are without it, about additions of new nodes.
-- Mathx (core/mathx): int.go.
-- Bloom (core/bloom): bloom.go, with the scripts that it has redis run, on the bits under a key. The
--   least offset that redis refuses is an argument. Bloom.Members is about what the filter finds.
-- Breaker (core/breaker): Breaker is googlebreaker.go with the method of core/mathx/proba.go that it
--   calls; Breaker.ErrorWindow and Breaker.Logged are breaker.go. The throttle keeps a window of
--   Collection.RollingWindow and marks each request in it; its sums are natural numbers and its
--   ratios fractions, exact where the Go code computes in float64. A closure that doReq is given acts
--   on a state that is handed on. Breaker.History and
--   Breaker.Requests are about sequences of marks and of requests.
-- Stringx (core/stringx): strings.go, with strings of valid UTF-8 as lists of runes. Stringx.Compact,
--   Stringx.Kept and Stringx.Reversed are about the loops in place, Stringx.Cut about substrings,
--   Stringx.Joined about joins. The loop of Reverse has the number of runes as its fuel.
-- Syncx (core/syncx): Syncx.RefResource is refresource.go, its count as the 32 bits of an int32.
-- Search (core/search): tree.go. Search.Paths says what a tree holds and when a pattern matches a
--   route; Search.Lookup, Search.Insert and Search.Routes are the proofs.
-- Router (rest/router): patrouter.go, which keeps one search tree for each method. `path.Clean` is
--   an argument of which nothing is assumed. Router.Built, Router.Serving and Router.Answers are
--   about a router made by a sequence of `Handle` calls.
-- Utils (core/utils): version.go, with the order of versions in Utils.Order.
--
-- The loops are structural recursions on what is left of a list or on the number of rounds left, so
-- they end as the Go loops do; the fuel of Reverse is more than the swaps of its loop.
--
-- Not modelled: input and output (logs, metrics, reports, the writing of responses), goroutines
-- outside the locks, reflection, and the clients of redis, SQL, etcd and gRPC. Of core/, rest/ and
-- zrpc/ the packages that are not named above are not modelled, nor is tools/goctl.
pub mod Bloom
pub mod Breaker
pub mod Codec
pub mod Collection
pub mod Hash
pub mod Mathx
pub mod Prelude
pub mod Router
pub mod Search
pub mod Stringx
pub mod Syncx
pub mod Utils
