-- ===== src/Lib.antt =====
-- The RebuildStack runtime agent: the parts of it that reduce what a cluster does to windowed records,
-- spool them as files, and ship the files to a backend.
--
-- The pod watcher (internal/collector) asks the filter which pods are collected, and counts its
-- decisions. The collectors hand usage deltas to the rollups (internal/rollup) and the cluster's
-- own history to the journals (internal/journal), which keep a record open for each subject and
-- wall-clock window. The agent's loops write snapshots of the open records and the closed ones to
-- the spool (internal/sink), one file per natural key, replaced in place. The shipper
-- (internal/shipper) offers the spool's files to the backend, the oldest first, and removes those
-- that it acknowledged, while the spool sweeps what nobody acknowledged. At start the agent reads
-- the windows that are still open back from the spool and resumes the rollups and journals from
-- them. The publisher (internal/targeting) ranks the workloads of the usage records for profiling.
--
-- Files, by the code that they model:
--   Sink/Registry.antt    internal/sink/registry.go: registry, Lookup, Registry.
--   Sink/Cadence.antt     internal/sink/cadence.go: gate.due, wrote, prune, fingerprint.
--   Sink/Names.antt       internal/sink/spool.go: fileToken, shortDigest, digestFileToken, and the
--                         check of a name in encodePayload.
--   Sink/Spool.antt       internal/sink/spool.go and counters.go: NewSpool, write, encodePayload,
--                         publish, and the counters.
--   Sink/Sweep.antt       internal/sink/spool.go: Sweep.
--   Sink/Windows.antt     internal/sink/spool.go and recover.go: the names of windows, parseWindowName.
--   Sink/Payloads.antt    internal/sink/spool.go: groupByWindow and the writers of windows.
--   Sink/Files.antt       internal/sink/spool.go: WriteOOMKill, WriteProfile, WritePulledProfile,
--                         WriteGoBuild.
--   Sink/Recover.antt     internal/sink/recover.go: RecoverOpenWindows and what it calls.
--   Shipper/State.antt    internal/shipper/shipper.go: the Shipper, hold, deferred, count, halted.
--   Shipper/Pending.antt  internal/shipper/shipper.go: pending.
--   Shipper/Deliver.antt  internal/shipper/shipper.go: read, payloadKind, post, deliver, acknowledged.
--   Shipper/Round.antt    internal/shipper/shipper.go: Round.
--   Shipper/Delay.antt    internal/shipper/shipper.go: nextDelay.
--   Shipper/Agent.antt    internal/shipper/agent.go: userAgent, plainVersion.
--   Rollup/Histogram.antt internal/rollup/histogram.go: the bucket grid, Observe, Merge.
--   Rollup/Window.antt    internal/rollup/window.go: startOf, split, mulDiv.
--   Rollup/Record.antt    internal/rollup/record.go: the records and Merge.
--   Rollup/Opened.antt    internal/rollup/accumulator.go and network.go: recordAt, addProRata.
--   Rollup/Accumulator.antt internal/rollup/accumulator.go: Observe*, Seed, CloseBefore, Snapshots.
--   Rollup/Network.antt   internal/rollup/network.go: Observe, CloseBefore, Snapshots, Merge.
--   Targeting.antt        internal/targeting/targeting.go: NewPublisher, Publish, Snapshot.
--   Journal/Windows.antt  what the journals share.
--   Journal/Restarts.antt internal/journal/restarts.go: Observe, Resume, CloseBefore, Snapshots.
--   Journal/Goroutines.antt internal/journal/goroutines.go: the same operations.
--   Journal/States.antt   internal/journal/states.go: the same operations.
--   Journal/Counters.antt internal/journal/counters.go: the same operations.
--   Journal/Events.antt   what the three journals of single events share.
--   Journal/Disruptions.antt internal/journal/disruptions.go: the same operations.
--   Journal/JobRuns.antt  internal/journal/jobs.go: the same operations.
--   Journal/NodeEvents.antt internal/journal/nodes.go: the same operations.
--   Collector/Filter.antt internal/collector/filter.go: matchGlob, the Admit functions, the counters.
--   Collector/Admission.antt internal/collector/pods.go: admit, decisionFor, countTransition, and what
--                         the pod handlers do with them.
--   Collector/Restarts.antt internal/collector/restarts.go: reportRestarts, forgetRestarts.
--   Collector/Usage.antt  internal/collector/usage.go: Seed, ingestContainer, and the usage's part of
--                         pollOnce, ingest, sweep and flush.
--   Collector/Network.antt internal/collector/usage.go: ingestNetwork, interfacesOf, and the network's
--                         part of pollOnce, ingest and sweep.
--   Collector/Poll.antt   internal/collector/usage.go: sweep and flush over both parts.
-- A module below one of these holds its theorems. Prelude.antt holds the helpers, Examples.antt the
-- theorems at concrete inputs.
--
-- Conventions. An operation takes the state and returns it; a mutex makes each one step, and calls
-- follow each other as a list. A string is the list of its bytes. An instant is a number of
-- nanoseconds since Go's zero time, so that 0 is the zero time, and a duration a number of
-- nanoseconds. A counter and a sum are numbers that do not wrap; the arithmetic that the code does on
-- 64 and 128 bits (the grid, mulDiv) keeps its bounds, and so do the saturating cases, but for an
-- interval of instants in split, which is exact where time.Sub saturates past 292 years. The os.Stat
-- and os.Remove of an acknowledged file are one step, with no replacement between them. A map that is
-- only indexed is a function; one that is ranged over is a list of entries in one order, and its order
-- shows only in what a sort leaves tied. sort.Slice is an insertion sort. A nil map
-- is an empty one, and a histogram's pointer is never nil, save in Seed, where it is an argument.
--
-- Parameters. SHA-256, the JSON envelope's kind, gzip, the jitter, and the
-- rendering and decoding of a payload are functions given from outside.
-- The file system, the clock and the backend stand in the arguments of an operation: a listing, what
-- each removal or rename does, the status that a request is answered with.
--
-- Fuel. The line loop of fingerprint runs on the number of bytes, since a round takes at least one;
-- the loops of the two splits on the interval's nanoseconds, since every round advances by at least
-- one; the bit length of a uint64 on 64, a bit for each round; the decimal digits of a number on
-- twenty, which hold every uint64.
--
-- Not modelled: the JSON of the payloads, and the writers that only wrap one snapshot under a fixed
-- name; the timer loops; of the collectors, what internal/collector/pods.go does besides deciding, the
-- requests to the kubelets, the metrics of cadvisor with the throttling trackers that a sweep drops
-- too, and the watchers of
-- policies, nodes and Jobs; and the parts outside these
-- packages, among them the inventory, the node agents and cmd/agent, which read executables, /proc and
-- the cluster through libraries.
pub mod Prelude
pub mod Sink
pub mod Shipper
pub mod Rollup
pub mod Journal
pub mod Targeting
pub mod Collector
pub mod Examples
