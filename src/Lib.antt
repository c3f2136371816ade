-- ===== src/Lib.antt =====
-- windns-logtail reads Windows event logs, ETL traces and DNS packets and sends them to syslog and
-- FTP servers. Readers (reader/) turn a source into batches of records (eventlog/), which go
-- through a channel for each source to consumers (consumer/). Both sides keep, for each log, the
-- time of the last record handled, in a checkpoint (checkpoint/) that survives a restart.
--
-- Checkpoint models checkpoint/checkpoint.go. State has its data and the outcomes of its system
-- calls, Point the struct Checkpoint with flush, persist, read and NewCheckpoint, and Worker the
-- goroutine run with the calls made around it, as a relation Step whose Reach is every
-- interleaving. Snapshot, Flush, Rounds, Recovery, Crash and Shutdown prove what they promise, and
-- Refinement has what a checkpoint is to its callers: a map in memory, one that is kept, and a
-- state that waits. Abstract has the map without its order of iteration, as a quotient. The lock
-- of each method makes it one step. The package yaml.v2 is a parameter, of which it is assumed
-- that a document that was marshalled is read back, and where it is said that marshalling
-- succeeds.
-- Eventlog models the records: Kind the interface Record of eventlog/log.go, Dns
-- eventlog/dns_log.go with the messages of miekg/dns as records, with Line and Columns its
-- theorems, Win the type WinRecord of eventlog/normal_log.go over any type of events, Xml its
-- xmlSafeReader, with Xml.Escape its theorem, Event the types of normal_log.go with an
-- UnmarshalXML of their own, over the tokens of encoding/xml; Event.Written, Event.Numbers and
-- Event.Fuel are theorems.
-- Consumer.Syslog models consumer/consumer_syslog.go: HandleEvents, batchSend and the line that
-- send builds, over any kind of records. What the server does is an argument. Stuck and Delivery
-- are its theorems. Send has send with its goroutine and its timer as steps, with Late its
-- theorem.
-- Reader.Etl models reader/etl_reader.go: Load is loadFiles, with Full its theorem; Copies is Run
-- with its counter, with Blocked its theorem; Files is the way of a file through transferETL and
-- unmarshalETL, as steps of the goroutines, with Kept and Sequence its theorems; Scan is scanXML,
-- with Batches and Rescan its theorems; Shutdown is Shutdown beside all of these, as steps that
-- count the tasks at work, with Crash its theorem.
-- Reader.Dns models reader/dns_packet_reader.go: Packet is unpack, Loop Run and save, Filter
-- getBpfFilterString, Shutdown the steps of Shutdown beside those of Run; Delivery, Meaning and
-- Shutdown.Counted are theorems. Packets and messages are what gopacket and miekg/dns make of
-- them.
-- Reader.Channel models reader/channel_reader.go: Open has Open, openChannel, openFile and Close,
-- Fetch eventHandles, Read Read and buildRecordFromXML, Loop Run and run; Order and Placed are
-- theorems. New is newWinEventReader, with Window its theorem; Shutdown has Shutdown beside the
-- rounds of run, as steps, with Sent its theorem. The calls of the Windows event log are the
-- record Api, over any state of the system.
-- Reader.Manager models the manager of reader/reader.go, with Added its theorem, over any kind of
-- readers.
-- Consumer.Manager models the manager of consumer/consumer.go, with Topics its theorems, over any
-- kind of consumers.
-- Consumer.Ftp models consumer/consumer_ftp.go: Archive is zipArchiveFile, Handle HandleEvents,
-- Path pathJoin, Upload checkArchiveLog; Kept, Newest, Retire and Uploaded are theorems.
-- Scheduler models cmd/wineventtail/schduler.go and cmd/dnslogtail/schduler.go, with the
-- constructors that they call: Point is the use of the checkpoints, Sources the readers, Address
-- and Sinks hookConsumer, Start addReader, addDNSPacket and Start, over any way of consumers to
-- handle events. Wired is a description of what is set up by the configuration alone, with its
-- theorems below it; Resumed and Address.Dialled are theorems. A channel of records is known by
-- the place of its reader. The dnslogtail program has the same addDNSPacket and hookConsumer; its
-- Start is start_packets.
-- Config models global/config.go and Logger global/logger.go.
-- Pipeline is the loop of a topic of consumer/consumer.go with a syslog consumer, on the batches
-- of a reader: Sent is about a channel reader, Traces about an ETL reader.
-- Chunk has readChunk, which two packages declare, and Rising the batches that rise in time.
-- Base has what the others share: tests, lists, strings as bytes, times as signed nanoseconds,
-- maps, sorting, decimal numbers, splitting. Tests runs the models and applies the theorems.
--
-- The loops of HandleEvents and scanXML take fuel, and their theorems give a bound within which
-- they return: one round more than there are records.
-- The halving of eventHandles takes fuel, one round more than the largest request, and a theorem
-- says that this is enough; the loop of run is followed for any number of rounds.
-- A Go map is an association list, and what is proved does not depend on its order. A channel is a
-- list. Counters do not wrap. A time.Time is what UnixNano gives; Unix is read of times in its
-- range.
-- Not modelled: the vendored packages, whose calls are parameters; the entry points, which are
-- calls of the service package; and the shutdown of the managers, which starts those of their
-- parts; the event as encoding/xml fills it; what follows a change of a list without its lock; and
-- a batch that a syslog consumer handles beside its own Shutdown.
pub mod Base
pub mod Checkpoint
pub mod Chunk
pub mod Rising
pub mod Eventlog
pub mod Consumer
pub mod Reader
pub mod Pipeline
pub mod Config
pub mod Logger
pub mod Scheduler
mod Tests
