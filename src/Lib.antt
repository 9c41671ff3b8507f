-- ===== src/Lib.antt =====
-- dnsplane, a DNS server: local records, a cache, upstream servers, and peers in a cluster.
--
-- A query is looked up in the local records (dnsrecords/dnsrecords.go) and in the cache
-- (dnsrecordcache/dnsrecordcache.go) by way of two maps (data/lookup_index.go), and sent to the
-- upstreams that the whitelists choose (dnsservers/) and the health tracker leaves
-- (data/upstream_health.go). The resolver (resolver/resolver.go) takes the first result by priority.
-- An upstream's answer is validated (dnssecvalidate/) and a local one signed (dnssecsign/). ServeDNS
-- (dnsserve/) stands before it, with the limits on queries (ratelimit/) and on answers (abuse/), the
-- limits on the size of a reply, and the zone transfer. Around them stand the block list (adblock/),
-- the exchange of records between peers (cluster/), the configuration (config/), the statistics
-- (fullstats/), the counters of the resolver and the log of the dashboard (data/).
--
-- Files and what they model:
--   Text, Text/*      the functions of package strings that the program calls, on lists of bytes
--   Library           what is asked of github.com/miekg/dns and of package net, as parameters
--   Records, Records/*  dnsrecords/dnsrecords.go: DNSRecord, Add, AddRecord, addRecordInternal,
--                     UpdateRecordByID, Remove, RemoveRecordByID, List, FilterRecords, FindAllRecords.
--                     An operation takes the list and gives an Outcome: the new list, the messages,
--                     the error. Records/History has sequences of calls
--   Cache, Cache/*    dnsrecordcache/dnsrecordcache.go: Add and Remove
--   LookupIndex/*     data/lookup_index.go: Index has the builders and the indexed local lookup,
--                     RrSet the cached RRsets, Answer the lookups in the cache and the fast path
--   Servers/*         dnsservers/dnsservers.go (Whitelist, and Commands with Add, Remove, Update and
--                     List) and dnsservers/endpoint.go (Endpoint)
--   UpstreamHealth    data/upstream_health.go
--   Resolver/Race     resolver/resolver.go: the loop of resolveFastPath, over the messages of the
--                     channel as a list in their order of arrival
--   Resolver/Caching  resolver/resolver.go: cacheDNSResponse, cacheSyntheticRRSetAnswer and
--                     backgroundRefresh, on the list of entries
--   Resolver/Resolve  resolver/resolver.go: HandleQuestion. The state is a Store, and a Run has the new
--                     one, the reply, the upstreams that were asked and how it ended
--   Dnssec, Dnssec/*  dnssecvalidate/validate.go and dnssecsign/signer.go
--   Serve, Serve/*    dnsserve/serve.go (Handle) and dnsserve/axfr.go (Transfer). ServeDNS takes and
--                     gives a Server: the Store, the limiters and the reasons of refusals
--   RateLimit         ratelimit/ip.go
--   Dashboard         data/dashboard_live.go
--   Data, Compact     data/data.go and data/cache_compact.go; Data/Coherent has sequences of changes
--   Abuse             abuse/sliding.go and abuse/rrl.go
--   Adblock           adblock/adblock.go
--   Cluster           cluster/state.go, cluster/policy.go, and the receipt of a snapshot in
--                     cluster/cluster.go; Cluster/Frame the frames of cluster/proto.go
--   Cluster/Wire      the messages of cluster/proto.go, and their JSON as a parameter
--   Cluster/Peers, Cluster/Discovery   cluster/status.go and cluster/discovery.go
--   Cluster/Manager   cluster/cluster.go: the state, a record Manager, applyAdminConfigFromMessage,
--                     refreshEffectivePeers, StatusSnapshot, JoinInfo; an Env has what it calls outside
--   Cluster/Serve     cluster/cluster.go: serveConn, on the list of the frames that are read, gives
--                     the Manager then and the frames written
--   Cluster/Dial      cluster/cluster.go: pushOnce, pullOnce, probeOnce, AdminPushConfig and what calls
--                     them, on a Link, which has what each call on the connection gives.
--                     Cluster/Dial/Delivered has the two sides together
--   Config/*          config/config.go: Keys and Read (UnmarshalJSON), Write (the tags), Defaults
--                     (applyDefaults, defaultConfig), Load (Load, LoadFromPath, Read, Save)
--   Fullstats         fullstats/fullstats.go: a Tracker has the two buckets of the database, the
--                     queue and the two maps of the session
--   Perf              data/resolver_perf.go
--   Converters, IpValidator, Safecast, Cliutil   converters/converters.go,
--                     ipvalidator/ipvalidator.go, safecast/safecast.go, cliutil/help.go
--   Examples/*        concrete inputs
--
-- Bounds and fuel: the loop of the race has 2 + n rounds for n upstreams, as in the source, and a
-- list of messages that is used up while rounds are left is a loop that waits. `decimal` has one
-- unit of fuel more than the number, and each digit uses one. Conversions to 32 and 64
-- bits are written out with `%`; a TTL is a number that the source keeps in 32 bits.
--
-- Not modelled: bytes above 127 in texts, the wording that fmt makes of a record, nil receivers,
-- locks (an operation is one step), files, sockets, the text of JSON, cryptography, floats, and
-- the commands and HTTP handlers around the operations, with the timers that start them. A
-- snapshot is sent whatever its length, where WriteFrame refuses a frame above 64 MiB. Times are
-- numbers of nanoseconds, and what the clock and the source of ids return is an argument. A Go map
-- is a list of pairs or of keys.
pub mod Base
pub mod Text
pub mod Library
pub mod Converters
pub mod Cliutil
pub mod IpValidator
pub mod Records
pub mod Cache
pub mod LookupIndex
pub mod Servers
pub mod UpstreamHealth
pub mod Resolver
pub mod Abuse
pub mod RateLimit
pub mod Safecast
pub mod Adblock
pub mod Cluster
pub mod Examples
pub mod Dnssec
pub mod Fullstats
pub mod Perf
pub mod Config
pub mod Serve
pub mod Data
pub mod Compact
pub mod Dashboard
