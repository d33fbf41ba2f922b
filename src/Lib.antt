-- ===== src/Lib.antt =====
-- The TinyHAN stack: the MAC layer of lib/tinymac.c with its protocol definitions in lib/tinymac.h, the
-- MQTT-SN client of lib/mqttsn-client.c, which may run over it, the payloads of lib/tinyapp.c,
-- the drivers lib/phy-udp.c and lib/phy-si443x.c, the examples mqttsn-simple-gateway, mqttsn-client and
-- sensor (examples/*/main.c), and the sniffer tools/phy-sniffer/tinyhan-sniffer.c.
--
-- A node runs the MAC over a PHY driver (lib/phy.h). Frames from the PHY arrive in `tinymac_recv_cb`,
-- a timer calls `tinymac_tick_handler` every 250 ms, and the application calls `tinymac_send` and the
-- set-up functions. A coordinator gives addresses to clients and keeps packets for sleepy ones.
--
-- Base: Boolean tests, lists, C results and little-endian bytes over native numbers.
--
-- Mac: lib/tinymac.c, built with WITH_TINYMAC_COORDINATOR, in modules by part. Types has the context
-- `tinymac_t` as the record `Mac`, with the linked PHY, the node on the stack of `tinymac_recv_cb` and
-- the calls that leave the MAC (`log`, the newest first) beside the fields of the source. An operation
-- is a function from context to context, under its name without the prefix `tinymac_`; a `static`
-- function that takes a node gets a `NodeRef`, so writes through the pointer are seen by all. Timers
-- has the callback timers, Registry the node table, Transmit the sending side, Timeouts the timers'
-- callbacks, Client and Coordinator the receive handlers of each role, Receive `tinymac_recv_cb`, Api
-- the public functions and the tick handler, and Run sequences of these. Wire has the constants and
-- the packed structures as lists of bytes. Upper has the packet that `tinymac_recv_cb` hands on, which
-- is the last thing it does; Links has what two nodes that are registered with each other know.
--
-- Mqttsn: lib/mqttsn-client.c with lib/mqttsn-client.h and lib/mqttsn.h. Types has the context
-- `mqttsn_c_t` as the record `Client` with the calls of its three callbacks, and the message buffer
-- as bytes by offset, on which the structures of lib/mqttsn.h are laid. An access beyond its 64
-- bytes, which a long topic causes, sets the mark `overrun`; what the code does from there on is not
-- modelled. Client has the sending functions and the public calls, Handler `mqttsn_c_handler` with a
-- handler per message. The topic table is a list, and reading behind its end finds nothing. The
-- seconds are natural numbers that do not wrap and stand still during a call; what the callbacks
-- return is used by no caller.
--
-- App: the serialisation of lib/tinyapp.c. Packet has the functions: a packet is the bytes before the
-- write pointer with the room up to the end, a failed `assert` gives no packet, and deserialising gives
-- the list of the callback's calls. Its loop runs on fuel, one unit for each byte. Tables has the profile
-- and item tables, and Lookup the functions that search them, with `strcasecmp` as a parameter.
--
-- Udp: lib/phy-udp.c, the PHY over UDP multicast. Crc has the checksum with its table, and Phy the
-- driver behind its socket, which is not modelled.
--
-- Link: the MAC over this driver. A datagram that is accepted is a call of `tinymac_recv_cb`.
--
-- Gateway: examples/mqttsn-simple-gateway/main.c, a coordinator that relays between its nodes and a
-- broker. `start_up` and `set_up` are the parts of `main` in front of its loop, `main_loop` is the loop:
-- each round gives what `epoll_wait` returned, with the datagrams and frames that wait. A part has no
-- result when `main` returns 1.
--
-- Endpoint: examples/mqttsn-client/main.c in the same way, a node on which the MQTT-SN client runs over
-- the MAC. The packets that a call of the client sends are handed to the MAC when the call is over, and a
-- received packet goes to the client when `tinymac_recv_cb` is over; neither caller uses a result.
--
-- Posix: the system calls of these two programs, as actions that end at the first call that fails. What
-- a call returns is up to a function of the calls so far.
--
-- Sensor: examples/sensor/main.c, one turn of its main loop after the other. The timer's count, the
-- conversions of the battery voltage and the frames come with each turn; the processor's registers are
-- left out.
--
-- Sniffer: tools/phy-sniffer/tinyhan-sniffer.c, what `rx_func` prints as a value, and nothing where it
-- overruns its buffer.
--
-- Si443x: lib/phy-si443x.c with lib/si443x_regs.h, the driver of the radio, built for its high band and
-- without SI4432. Regs has the registers and Regs/Scale the scaling macros. In Radio, a `Driver` holds the
-- static variables and all that was done on the pins so far, and the radio is a parameter: two functions
-- of that history, for the byte that it shifts out and for the level of nIRQ. Config has the
-- configuration and its loader, Events the event handler with the states that it sets, Send `phy_send`, and
-- Driver the other functions. The loops that wait for the radio run on fuel, and give nothing when it
-- runs out; Calm and Returns say how much is enough, and for which radios. Wire reads back from the
-- history what the radio's FIFO was given.
--
-- Counters keep their width: sequence numbers wrap at 2^8, the slot at 2^16, ticks at 2^32, where an
-- `int` has 32 bits. The table is a function on indices of which the 32 of the source are used, and
-- loops over it count them down, so no other bound is needed. The RSSI is kept as its bit pattern.
--
-- The PHY is a parameter: its MTU, and the result of each send, which may depend on everything before.
-- The callbacks of the application are recorded in the log, and are taken not to call the MAC again but
-- for the received packets of Endpoint. `rand()` is an argument of `init`. Printing (`tinymac_dump_nodes`
-- and the trace macros) is left out, as are signals, the closing of descriptors, and the monitors of
-- tools/gnuradio, which are not C.
pub mod Base
pub mod Mac
pub mod Mqttsn
pub mod App
pub mod Udp
pub mod Link
pub mod Posix
pub mod Endpoint
pub mod Gateway
pub mod Sensor
pub mod Sniffer
pub mod Si443x
