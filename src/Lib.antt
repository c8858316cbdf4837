-- ===== src/Lib.antt =====
-- fnrun: a source feeds inputs through middlewares to a fn, as a configuration says.
--
-- A program is assembled by configuration. cmd/fnrunner fills a registry (run/run.go) with factories of
-- sources, middlewares and fns under keys; a runner (run/runner/runner.go) asks it for the objects under
-- "source", "middleware" and "fn", which are a source loader, a pipeline and a fn loader, and configures
-- them (run/config/config.go); these ask the registry in turn for the objects that the configuration
-- names. Running is the source serving the fn, wrapped in the pipeline's middlewares.
--
-- The model
--   A call of Go is a function from a world to a result and a world. The world W is a parameter: it
--   holds what the modelled objects do not (processes, brokers, sockets, clocks). Exec/Defs has the
--   results: a value, an error, a panic, or a wait for ever. An Fn.Invoke, whose two results may
--   both be read, gives a Reply. A method that assigns to its receiver returns the receiver as it is
--   afterwards, also when it fails (Method).
--   Value is the Go interface{} that configurations and inputs are; a map is its list of entries.
--   Config has an object as the record of the optional configuration methods that it implements,
--   each with the interface (Fn, Middleware or Source) that it gives afterwards; a method that is
--   absent is a type assertion that fails. Configure is one function over all cases.
--
-- Which file models what
--   Registry: run/run.go, with its three maps. Finders is the Registry interface as its clients use it.
--   Fns: fn/fn.go, run/fn/identity, run/fn/middleware; Fns/Http: run/fn/http.
--   Fns/Cli: run/fn/cli/cli.go; Fns/Cli/Script: script.go; Fns/Cli/Service: service.go, the methods one at a
--   time, over Fns/Cli/Os, which is os/exec. Fns/Cli/Running has the same service with any number of
--   invocations at once, its goroutines, channels and processes as a step relation; Running/Simulation, Refining and Living run the
--   methods of Fns/Cli/Service on the processes of these steps.
--   Config: run/config/config.go. Config/Selection says which method is right for which data, as a
--   relation; Config/Refusal compares the code with it.
--   Making: the common step of runner, pipeline, loaders and pool: find a factory, call it, configure
--   what it makes. It has its own relation, Makes.
--   Pipeline: run/middleware/pipeline/pipeline.go.
--   Loader: run/fn/loader/loader.go and run/source/loader/loader.go.
--   Runner: run/runner/runner.go.
--   Main: cmd/fnrunner/main.go. Main/Objects has what the factories make whose objects hold nothing but
--   their configuration. The factories of the other packages are the record Packages, which Main/Packaged
--   fills: Main/Placed has the fns and middlewares that change when they are invoked, at addresses of the
--   world (Main/Cells), Main/Served the sources, Main/Pooled the pools. Main/Isolation is about a pool
--   whose template is a command. Main/Assembling and
--   Main/Program are about the program that a configuration gives, Main/Starting about how it comes to
--   that, Main/Depth about the registry that refers to itself, Main/Restarting about the loop, Main/Ending
--   about how main ends, and Main/Vain about the loop around the Kafka source.
--   Pool: run/fn/pool/pool.go. The channel is a queue with a capacity. Pool/Invoking is about a call
--   that runs alone; Pool/Calls has the calls of several goroutines as a step relation, whose steps are
--   the cases of the select and the send, Pool/Ownership is about what it
--   reaches, Pool/Alone compares the two, and Pool/Rotating is about calls one after the other.
--   Middlewares/Key, Timeout, Debug, Json, Jq, Limits, Tap and Kafka: the directories of run/middleware
--   with these names; Key also has healthcheck, and Limits has ratelimiter and circuitbreaker;
--   Limits/Fixed is about the calls of one rate limiter.
--   Middlewares/Tap/Sharing has the start of the tap's program by several invocations at once.
--   Sources/Kafka, Http, Sqs, ServiceBus, Lambda and Cron: the directories of run/source with these names
--   (azure/servicebus for ServiceBus); the first five have a module for what becomes of a message.
--   Sources/Kafka/Hooks is decode_hooks.go, and Sources/Kafka/Restarting is about a second Serve.
--   Sources/Http/Running and Sources/ServiceBus/Renewing have the goroutines of these two.
--   Prelude, Value/Int: lists, tests and integers that the others share.
--   Tests: runs of the code, and each theorem at a concrete input.
--
-- Parameters
--   Libraries are parameters: mapstructure.Decode, time.ParseDuration, encoding/json, yaml.v3, gojq, the
--   rate limiter, gobreaker, os/exec, sarama, crypto/tls, the files, net/http, the AWS SDK, the Service Bus
--   client and the cron library. So is the part of the world that holds the objects of a type: it
--   is a record of operations (Main/Cells), with the laws of a memory where a theorem needs them. The Serve
--   of a source in Main is a parameter with the law that it gives what the loop of the source's module gives
--   once that is over; that of the HTTP source, whose goroutines are a relation, has no law.
--   Where a theorem needs to know what
--   such a call does to the world, it says so in its hypotheses, and mostly it is a log that keeps what
--   was sent.
--
-- Fuel
--   The endless loops of the sources run on fuel, a number of rounds; they give none while they are not
--   over, so that a result is never one of missing fuel. For the Kafka source more rounds than
--   successful calls of Consume are enough (Sources/Kafka/Serving). All other loops are over the elements
--   of a configuration or of a batch, or count down from a number that is given: compose runs over the
--   indices of its list, the pool's loop over the concurrency. A gojq iterator that never ends is
--   a constructor of its own, on which the loop of jq is a wait for ever.
--
--   The registry that main fills holds a pointer to itself. In Main it is followed for a number of times
--   that is given, and nothing is found behind; Main/Depth says how many are enough. The rounds of
--   main's loop are fuel like those of the sources.
--
-- Not modelled
--   Of an interface{} the dynamic types that the code tells apart are there, any other type by its name
--   only. Mutexes are not: an object's own methods run one after the other, except where a step relation
--   has the goroutines (Pool/Calls, Fns/Cli/Running, Middlewares/Tap/Sharing,
--   Sources/Http/Running, Sources/ServiceBus/Renewing).
--   Deadlines are kept, but time does not pass by itself. The line protocol of a process is text in, text
--   out; what the process does in between is a function.
--   An input of a cli service is taken to be one line. A script whose context is done leaves its goroutine
--   blocked on its channel, which nothing sees. The pool's channel is made for every number of fns that is not
--   negative, however large. The Kafka source's Serve is taken to return after the deferred Close, which in
--   the code may come a little later than the result. The array of no values is one value, whether its slice
--   is nil or empty.
pub mod Prelude
pub mod Value
pub mod Exec
pub mod Config
pub mod Registry
pub mod Fns
pub mod Pipeline
pub mod Loader
pub mod Making
pub mod Runner
pub mod Main
pub mod Pool
mod Tests
pub mod Middlewares
pub mod Sources
