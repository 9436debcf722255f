-- ===== src/Lib.antt =====
-- macdetect watches the devices of a machine, keeps the hardware addresses that it sees on them,
-- and tells its clients over sockets what appears and disappears. The daemon macdetectd owns a
-- monitor of the network and a server. In each round of its main loop the monitor reads one frame
-- from each device, updates its lists and leaves the events of the round; the server accepts
-- clients and collects the values that they sent; the daemon answers the requests and sends a
-- notice of each event to the clients that follow the device. Requests, answers and notices are
-- values, trees of keys and contents, which the utilities encode into bytes.
--
-- The parts and their files:
--   Base, Doubles: shared helpers; texts are lists of bytes, a `std::map` is a sorted association
--     list, `double` is a type with the operations that the program uses.
--   Value: utils/src/Value.cpp. `serialize` and `deserialize` stand in Value/Wire, an encoding
--     that is independent of buffers in Value/Encode, `print` in Value/Print.
--   Packet: utils/src/PacketEntity.cpp, `send` and `receive`; Send and Receive have the laws of
--     one call, Channel compares any sequence of calls with a queue of values.
--   Config: utils/src/Config.cpp; Lookup and Portions have the proofs.
--   Reader: utils/src/SocketReader.cpp and MulticastEndpoint.cpp; Buffer has the law of the first.
--   Arguments: utils/src/ArgumentParser.cpp; RoundTrip has its law.
--   Wire: macdetectd/src/Wire.cpp, the layout of frames.
--   Event, Device, Vendors: macdetectd/src/Event.cpp, Device.cpp and Data.cpp. Device/Checksum and
--     Device/Ping are the ping, Verify and PingLaws their proofs; Vendors/ReadLines has the law of
--     the last, Vendors/Paths its paths.
--   Rarp: macdetectd/src/RARP.cpp, whose request Rarp/Frames joins with its reader.
--   Network: macdetectd/src/Network.cpp. The record `Network` is the state of the class; Macs has
--     the operations on the seen addresses, Devices those on the devices, Evidence and Activity
--     the reading of frames, Cycle the whole round, Settings the setters. Replay is what a client
--     can know from the events, Tracking the invariant; Sound, Quiet, Follow and Loops have the
--     proofs; Frames joins the sender of a ping and its reader. Known, Managed, Steady and Rounds
--     have the proofs on the known devices, Names, NamesKept and NamesFollow compare them with
--     what a client can know of them from the events.
--   Server: macdetectd/src/Server.cpp; Ids, Apart, Loops, Connections, Delivery and Queue have the
--     proofs.
--   Discovery: utils/src/DiscoveryNode.cpp, with DiscoveryServer.cpp and DiscoveryClient.cpp in
--     Server and Client; Exchange joins the two.
--   Daemon: macdetectd/src/Daemon.cpp. Streams, Requests, Notices and Cycle follow the loops of
--     `Daemon::cycle`, Settings is the reading of the configuration, Start the constructors;
--     Owners, Keeping and Owned have the proofs on the clients of the streams, Safe and Configured
--     those of the invariant of the whole state, Total that of the absence of a crash. Fold is how
--     a client reads the values that it gets, View what it reads of the addresses, DeviceView of
--     the devices; DeviceNews has the proofs on the devices; Delivery, Following, Replies, Knows
--     and History compare the view of the addresses with what the monitor has seen, from
--     `Network::cycle` to the socket. Answers is what a client reads from the responses;
--     Answering, Unasked and Answered have the proofs on the responses of a round, Learning joins
--     the two views.
--   Client: client/src/Client.cpp and MDClient.cpp; Requests joins its requests and the
--     daemon, Reading the daemon and the bytes that the client reads.
--   Bindings: pymacdetect/src/PyMACDetect.cpp, values as Python dictionaries; Methods has the
--     calls from Python.
--   Main: macdetectd/src/daemon.cpp, the main loop; Laws has the proofs, and Reach those on the
--     states that the program reaches, as a relation.
--
-- A state is a record, and an operation takes the state and gives the new one with its result.
-- What the operating system answers, the resolver, the regular expressions, the clock and the
-- fresh memory are arguments (Network.System, Server.Clients, the functions of Packet). A pointer
-- to a client is a number. A null pointer that is followed and a read past a buffer are `none` or
-- `overrun`.
--
-- Loops are structural recursion or take fuel. `deserialize` takes the length of the buffer, as a
-- value has twelve bytes or more; the loops that erase one element and start again take the length
-- of the list; the search for a free number takes one more than the sum of the successors of the
-- used numbers. The loops of Packet, Client and Main take their fuel as an argument, and the
-- theorems name a bound; the parser of the command line takes the number of the arguments. Numbers
-- of 32 bits wrap around where the code lets them; signed offsets of the encoding are kept below 2
-- GiB by hypotheses.
--
-- Not modelled: logging, the command line client and the graphical interface. The patterns for
-- devices are ones that `std::regex` accepts, as it throws for others; and the rounds of the
-- daemon are those in which no `receive` reads past its buffer, which is a result of Packet and
-- Discovery only. What the eight bytes overwrite that `Device::sendPing` writes behind its buffer
-- is left open. A signal is taken between two rounds of the main loop. Locks are left out, as each
-- is held during the whole of an operation. The rounding of `double` is left open.
pub mod Base
pub mod Doubles
pub mod Value
pub mod Reader
pub mod Packet
pub mod Event
pub mod Wire
pub mod Device
pub mod Rarp
pub mod Vendors
pub mod Config
pub mod Arguments
pub mod Network
pub mod Server
pub mod Discovery
pub mod Daemon
pub mod Client
pub mod Bindings
pub mod Main
