-- ===== src/Lib.antt =====
-- Models of the addr.tools DNS server: its TTL stores, the zones that keep their data in them, the
-- handlers that answer queries and sign the answers, the test zone with its options, the reports on
-- probes of a resolver, and its Oblivious DoH target.
--
-- The parts and their files, with the Go sources under internal/:
--
--   TtlStore/Contract    ttlstore/ttlstore.go: the interface TtlStore as a record of operations over a
--                        state, and the laws that its comments promise (IsLawful).
--   TtlStore/Simple      ttlstore/simple.go: SimpleTtlStore, a function per method. Its child modules
--                        hold the invariants of runs of calls (Runs), the size limit (Limit), the
--                        contract (Lawful), expiry (Pruning), the files (Files) and a restart from
--                        the file (Reload).
--   TtlStore/Prefixed    ttlstore/ttlstore.go: Prefixed, over any store.
--   Dns                  the messages of github.com/miekg/dns, as far as the code reads and builds them.
--   Dnsutil/Strings      dnsutil/strings.go.
--   Dnsutil/Edns         dnsutil/edns.go: EDNS, message sizes and padding.
--   Dnsutil/Records      dnsutil/collections.go: StaticRecords.Get.
--   Dnsutil/Dnssec       dnsutil/dnssec.go: Sign, ProvideKeys, Prove. Which types are signed (Covering,
--                        Signing), how an answer is denied (Denial, Nonexistence), and the times of
--                        the signatures (Times).
--   Dnsutil/Simple       dnsutil/simple.go: SOA and ServeDNS of SimpleHandler, and Init (Startup). Its
--                        answers (Answers), and what it refuses (Refusals).
--   Dnscheck/Options     zones/dnscheck/options.go: ParseOptions.
--   Dnscheck/Texts       the TXT strings of zones/dnscheck/handler.go, and GeoString of
--                        httputil/ipinfo.go.
--   Dnscheck/Records     zones/dnscheck/handler.go: SOA, the apex, the static records and the deferred
--                        SOA step, beside those of SimpleHandler (Copies).
--   Dnscheck/Answers     zones/dnscheck/handler.go: the answers that the options ask for.
--   Dnscheck/Handler     zones/dnscheck/handler.go: ServeDNS with its deferred steps, and
--                        BadDnssecProvider.
--   Dnscheck/Watchers    zones/dnscheck/watcher.go: SimpleWatcherHub.
--   Httputil             httputil/request.go: RequestValues and GetString.
--   Zones/Dyn            zones/dyn: address records, the HTTP handler, the record generator.
--   Zones/Challenges     zones/challenges: the HTTP handler and the record generator.
--   Zones/Myaddr         zones/myaddr: registrations and IsValidName, UpdateHandler (Handlers),
--                        RegistrationHandler (Handlers, Owner), AdminHandler (Admin), the record
--                        generator (Generator).
--   Probes               probereport: observations, their readings and QNAMEMinimisation.
--   Probes/Reports       probereport/report.go: Store.Get and the HTTP handler.
--   Probes/Tails         probewatch/probewatch.go: fetch, and tail as a loop and as a step relation
--                        over the pushes, reads and stops around it.
--   Probes/Hub           probewatch/probewatch.go: the hub and the channels of its tails.
--   Probes/Queries       probewatch/probewatch.go: synthesize.
--   Odoh                 odoh: the wire formats (Configs, Messages, Plaintexts) and the exchange of
--                        client and target (Exchange).
--   Prelude              lists, byte strings, maps, results and decimal numbers that they share.
--   Tests                the theorems at concrete inputs.
--
-- How code becomes definitions. A method that changes a store is a function from the old state to the
-- error and the new one, since a lock makes each method one step. A method that reads the clock takes
-- the reading as an argument. Handlers of the zones take any store that keeps the contract; they and
-- the stores meet only in the records TtlStore and IsLawful, which SimpleTtlStore and Prefixed fill.
-- A Go map is an association list with distinct keys, a Go string a list of bytes, and an error a
-- value of Result or Option without its text where no caller reads the text. uint32 sums wrap.
-- Replies carry the status and the text; log lines are left out.
--
-- A DNS handler is a function from the request to the message that it writes. Go runs deferred
-- steps in the reverse of their order, so the functions apply the body first, then the default for
-- ANY, the SOA record, the proof and the size. The generator of a zone comes in by its result for
-- the request; those of dyn and challenges are functions of their own. The mux sends a handler only
-- names that end in its zone. The dnscheck handler has its own copies of SOA, the apex and the
-- static answers; they read the fields that SimpleHandler has too, and take that record.
--
-- A tail runs beside the plugin that pushes entries and the hub that stops it. Its steps are those
-- between which the others can act: the check of its channel, the read, each observation sent, and the
-- select at the end. The store's list only grows while a tail reads it.
--
-- Code outside the repository is a parameter: the replies, Pack and Truncate of miekg/dns
-- (DnsLibrary), its signing and the order of Go's walk over a map, encoding/json for the store's
-- file and the probes, utf8.ValidString, the parsers of mime, net/url and net, SHA-2, and the HPKE,
-- HKDF, ECDH and AES-GCM of the Crypto record, with what their documentation promises in IsCorrect.
--
-- Fuel: SplitForTxt takes a round for at least one byte and ParseConfigs for at least four, so both
-- start with as many rounds as there are bytes; theorems below show that they never run out.
--
-- Not modelled: the Valkey store, which only calls its client; generating and loading of DNSSEC
-- keys, which only calls crypto libraries; the loop that renews the signature over a SOA record;
-- Init of the dnscheck handler, which is SimpleHandler's with a second, generated key; the
-- websocket handler; network listeners, configuration and the main program.
pub mod Prelude
pub mod TtlStore
pub mod Dns
pub mod Dnsutil
pub mod Dnscheck
pub mod Odoh
pub mod Httputil
pub mod Zones
pub mod Probes
pub mod Tests
