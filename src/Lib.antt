-- ===== src/Lib.antt =====
-- The programs of the repository: the GNSS recorder script/gps, the dual-modem UDP tunnel
-- script/tun-vpn, the kernel modules under driver/, and the small tools script/usb, mcast and
-- libevent/ftrace.
--
-- script/gps configures a u-blox receiver over a serial line and records what it sends. Its parts are
-- the tables of UBX messages, the checksum, the parser that waits for an answer, the dump of the
-- receiver's configuration, the serial line, and the log files with their rotation.
--   Gps/Types, Gps/Tables: `struct ubx_cfg_poll` and the three tables of main.c, row by row.
--   Gps/Checksum: `do_checksum`.
--   Gps/Poll: the `switch` of `poll_ubx_data` as one step per byte; Gps/Poll/Loop: its loop over
--     `select` and `read`, one turn per list element, with the clock in 32-bit milliseconds.
--   Gps/Dump: `dump_ubx_cfg` and `ubx_debug_message`.
--   Gps/Serial: ih_serial.c, on a record of the flags that it sets.
--   Gps/Logs: `get_log_filename`, `log_rotate` and the loop of `gnss_log_record`.
--   Gps/Antenna: `ant_status_record`. Gps/Zone: `tz_update`.
--
-- script/tun-vpn carries IP packets between a client (uctun.c) with two modems and a server (ustun.c).
-- Each packet goes over both modems, and the receiver drops the second copy; or it goes as two data
-- shards and one parity shard, of which any two restore it. The server learns from each message the
-- gateway's addresses and which gateway a connection belongs to, and sends answers accordingly.
--   Tunnel/Wire: the constants and `tun_pkg_t`.
--   Tunnel/Dedup: `dedup_state` and `is_duplicate`.
--   Tunnel/Fec: `fec_recv_done`. Tunnel/Codec: what it needs of the Reed-Solomon library.
--   Tunnel/Gateways, Tunnel/Connections: the two lists of ustun.c and every function on them.
--   Tunnel/Server: what `udp_receiver_thread` does with a message, and `send_to_gateway`;
--     Tunnel/Server/Batch: its loop over a batch; Tunnel/Server/Thread: its set-up and its loop.
--   Tunnel/Server/Main: the loop of `main` of ustun.c, with the receiver threads' messages in between.
--   Tunnel/Client: uctun.c's own copies, what `receiver_thread` does with a message, and `send_packet`;
--     Tunnel/Client/Batch: its loop over a batch; Tunnel/Client/Thread: all of it.
--   Tunnel/Client/Main: how `main` of uctun.c opens its sockets, and its loop; Main/Over: both together.
--   Tunnel/Transit: the network between the two, in both directions; Tunnel/Transit/Stream: a run of
--     packets from one loop to the other.
--   Tunnel/IoUring: `io_uring_poll` and `tun_buf_init` of ustun.c, on what the queues show.
--   Tunnel/Lan: `get_br1_lan_addr` of uctun.c. Tunnel/TunDevice: `create_tun_device` of ustun.c.
--
-- The kernel modules are two character devices and one industrial I/O device for a motion sensor, one
-- character device for a light sensor, and small examples of other kinds of driver.
--   Drivers/Words, Drivers/Regmap: casts of 16-bit words, and what the kernel's register maps offer.
--   Drivers/Iio: driver/iio/icm20608/icm20608.c; Drivers/Iio/Attributes: `icm20608_read_raw` and
--     `icm20608_write_raw`; Drivers/Iio/Trigger: the triggered buffer; Drivers/Iio/Probe: the probe.
--   Drivers/Motion: what driver/spi/icm-20608/icm20608.c (Drivers/Motion/Spi) and
--     driver/regmap/icm-20608/icm20608.c (Drivers/Motion/SpiRegmap) share.
--   Drivers/Ap3216c: driver/i2c/ap3216c/ap3216c.c.
--   Drivers/Button: driver/input/input-button.c and input-polled-button.c. Drivers/Gpio: the handlers
--     under driver/gpio. Drivers/Chardev: driver/chardev. Drivers/FakeRtc: driver/rtc/fake/fake-rtc.c.
--     Drivers/Sysfs: driver/sysfs/kobject_example.c. Drivers/Kset: sysfs_kset_example.c beside it.
-- The transfers on a bus are parameters that thread the chip's state; the kernel's other calls succeed
-- or fail as a record of results says (Drivers/Probe). Drivers/RegisterFile and Drivers/RegisterBus are
-- a chip and buses with which the laws on them hold.
--
-- The tools do not use the other parts.
--   Trace: libevent/ftrace/trace_hooks.c, the hooks that write a line at the start and the end of each
--     function. Usb: `find_device_by_product` of script/usb/main.c. Mcast: the loops of
--     mcast/mcastclient.c and mcast/mcastserver.c, and that of simple_udpserver.c.
--
-- How code corresponds to definitions: a function has its source's name, state is passed explicitly,
-- and a part of a long function has a name of its own. Bytes, 16-bit and 32-bit words are numbers, with
-- wrap-around written out where the code relies on it. An access out of bounds is a value (`fault`,
-- `out_of_bounds`). `time(NULL)`, `malloc`'s success, sockets, reads and clocks are arguments. Loops
-- recurse on the bytes, the events, the entries or the attempts left. Three functions take fuel: the
-- loop over the mask in Tunnel/Lan takes 33 tests, one more than the mask has bits; the loop over the
-- lines that are typed in Mcast takes one turn more than there are bytes; and the hooks in Trace follow
-- calls of themselves to a given depth, of which the first already does nothing.
--
-- Not modelled: option parsing, logging to the console, the routing rules, thread creation, and the
-- copies of other projects (rs.c, obl/, ih_list.h, libusb.h, evtest); a list is a `List`, and the codec
-- a parameter whose laws are its documented behaviour. Tunnel/AddCodec shows that these laws can hold.
-- The kernel modules under driver/ that only register with the kernel (PWM, network, platform) and the
-- examples of kernel_helper_function, the set-up of the sockets under mcast/, and the handlers that
-- print a stack (backstrace.c) are not modelled, nor are locks and delays in the drivers.
pub mod Prelude
pub mod Gps
pub mod Tunnel
pub mod Drivers
pub mod Trace
pub mod Usb
pub mod Mcast
