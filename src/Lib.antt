-- ===== src/Lib.antt =====
-- The ACI containers controller: the parts of it that keep books, with the properties that make
-- them correct. The program's controller and host agents run beside a Kubernetes or Cloud Foundry
-- cluster and configure a Cisco ACI fabric; pkg/controller hands out IP addresses to nodes and
-- pods from the pools of pkg/ipam, and finds with pkg/index which policies and services select which
-- pods.
--
-- Base.antt: shared names, Boolean tests, lists over the native numbers (Base/Lists), and Go's
--   `sort.Search` (Base/Search), a binary search with `n` rounds for `n` elements, which halving
--   makes enough.
-- Ipam/Address.antt: pkg/ipam/ipalloc.go, byte slices as lists of bytes, `bytes.Compare`,
--   `carryIncrement`, `carryDecrement` and `isAdjOrGreater`. Address/Value reads an address as a
--   big-endian number; Address/Big has `Int.Bytes` of math/big with the padding of `GetIpChunk`.
-- Ipam/Alloc.antt: pkg/ipam/ipalloc.go, `IpAlloc` as the list of its ranges, with `AddRange`
--   (`add_to_free`, `fix_range`), `RemoveRange` (`cut_range`, `back_up`, `remove_loop`), `GetIp`,
--   `AddRanges` and `RemoveRanges`. Its loops on indices have as many rounds as the list has
--   ranges, since each round removes a range or moves past one. Alloc/Order states the order of
--   the ranges and the addresses held, Alloc/Merge, Insert and Add treat `AddRange`, Alloc/Cut,
--   Remove and Difference `RemoveRange`, Alloc/Get, Batch and Overlap the rest.
-- Ipam/Chunk.antt: `GetSize` and `GetIpChunk`. Chunk sizes are numbers: a negative int64 asks for
--   nothing, as 0 does. A pool of `n` ranges is given `n + 2` rounds: each range goes over whole in
--   one, the last one in part, and one round finds the size reached.
-- Ipam/Intersect.antt: `Intersect`, on the parts of the two lists from the indices on; each round
--   leaves a range behind.
-- Ipam/Cache.antt: pkg/ipam/ipcache.go, `IpCache` with two lists for each address family, and
--   `HasIp`. `To4` and `To16` of Go's net package are tests on the bytes.
-- Ipam/Cidr.antt: pkg/ipam/iprange.go, with `AddSubnet` and `RemoveSubnet`. A mask is its number of leading
--   ones, so that `&` with it rounds a byte down and `|` with its complement rounds it up.
--   `Range2Cidr` has as many rounds as there are addresses up to the end, since each round goes past its
--   start. Cidr/Masks treats subnets as ranges, Cidr/Next the successor, Cidr/Cover `Range2Cidr` and
--   Cidr/Subnets the two operations; Cidr/Examples has runs.
-- Ipam/Examples.antt: runs, and each theorem at an input.
--
-- Index.antt: pkg/index/pod_selector_index.go, the maps of `PodSelectorIndex` and the operations on
--   pods; Index/Selecting has those on selector objects. Base/Maps has Go's maps and sets, as lists. Index/Calls has the namespaces of selectors,
--   `UpdateNamespace` and the callbacks as lists of calls. Kubernetes' selectors, stores and key
--   functions are arguments. Since the lock covers each change, an operation is one step. Index/Links
--   reads the maps as relations, Index/Visits, Drops and Selects treat the loops, Index/Agree, Pods
--   and Objects the operations, Calls/Reachable, Namespaces and Told the outer operations, and
--   Calls/Examples has runs.
--
-- Apic.antt: pkg/apicapi/apic_types.go and apic_sync.go, objects as trees, their comparison and the
--   difference of two states; Base/Strings has the order of strings. Apic/Trees and
--   Same treat the comparison and Apic/Sorted the merge. Apic/Sync.antt has the state of `ApicConnection` with
--   `doWriteApicObjects`, `fullSync`, `reconcileApicObject` and, of apicapi.go, `queueDn`,
--   `handleQueuedDn` and `handleSocketUpdate`; Sync/Queue treats the queue and Sync/Names the index of
--   names, where `removeFromDnIndex` has as many rounds as there are entries, since each round
--   deletes one. The table of classes and the hash of a key are arguments, and `write_prepared` is
--   `doWriteApicObjects` on prepared objects. Apic/Tags has `SetTag`, `GetTag` and
--   `prepareApicSliceTag`, where each round goes one level down; its rounds count two for an object, which
--   may get a tag as its child, and one for a tag. Tags/Round treats the tags and Tags/Rounds the
--   rounds; Tags/Specified says what a prepared object is, and Tags/Arranged, Retagged and Prepared treat
--   the preparation. Apic/Normal has the normalizers of apic_metadata.go.
--
-- Kv.antt: pkg/keyvalueservice/namespace.go, a store with the log of its latest changes. Versions wrap
--   at 2^64. Kv/Log states the order of the log, with Log/Positions for the searches and Log/Dropped for
--   a purge; Kv/Holds is the state between operations, Holds/Logging, Kept, Bounded and Found treat the
--   operations, and Holds/Since what the log tells of an earlier state. Kv/Updates has
--   `FindUpdatedAfter` for a client with a copy. Kv/Manager.antt: manager.go, with the messages of the
--   watch loop as functions; Manager/Steps has the interleavings of the calls with the loop,
--   where a call's change and its message are two steps, Manager/Serving, Pending, Loop and Answers
--   treat them. Kv/Watcher.antt: the calls of rpc.go and the replies of watcher.go, and
--   Watcher/Session a client that keeps a copy; a reply is made and handled in one step, since the
--   client's copy is its own. Kv/Examples has runs.
--
-- Nodes.antt: pkg/controller/nodes.go, with what config.go does at the start, the chunks of addresses
--   that nodes get for their pods; `json.Marshal` and `json.Unmarshal` are arguments, and a call of
--   `NodePodNetworkChanged` is part of the result. Signed sizes are compared by adding half a chunk on
--   the other side. Nodes/Moves treats one node and the pool, Nodes/Owned all nodes, Nodes/Runs any
--   sequence, Nodes/Merged the chunks and `mergePodNet`, and Nodes/Service has `createServiceEndpoint` and
--   `nodeDeleted`, where parsing and making MAC addresses are arguments. Nodes/Examples has runs.
--
-- Policy.antt: pkg/controller/network_policy.go, `buildNetPolSubjRules` and the objects that it
--   makes, with the defaults of pkg/apicapi/apic_metadata.go. Policy/Allows says what the fabric
--   lets through by a rule, Policy/Rules by all of them, and Policy/Names how they are named. `strconv.Itoa` is an argument, and the
--   peers of a policy come as the test for any and the list of their subnets. Policy/Blocks has
--   `ipBlockToSubnets`, where `net.ParseCIDR` is an argument and the texts of the result are
--   left out. Policy/PortIndex.antt: `targetPortIndex`, where an entry is written back where the
--   code changes it through a pointer, and the ports of network policies and of services;
--   PortIndex/Handlers has the parts of the handlers that the lock of the index covers,
--   PortIndex/Entries, Indexed and Says treat one update, PortIndex/Followed any sequence of
--   events, and PortIndex/Queued the policies that services queue. Policy/Examples has runs.
--
-- Go panics on an index out of range; the model reads a blank range there, which the guards of the
-- code exclude. Sharing of byte slices between ranges is left out, since no operation writes to the
-- bytes of a slice that it did not make. Not modelled: the connection of
-- pkg/apicapi, the codec and the connections of pkg/keyvalueservice, the rest of pkg/controller, pkg/hostagent, and
-- the parts that are input and output.
pub mod Base
pub mod Ipam
pub mod Index
pub mod Apic
pub mod Kv
pub mod Nodes
pub mod Policy
