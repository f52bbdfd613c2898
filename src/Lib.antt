-- ===== src/Lib.antt =====
-- beachedmesh: an association-free mesh over 802.11 in monitor mode.
--
-- A node hears frames on one radio. `beachedmesh/frame.py` reads and writes the packet
-- inside a frame; `beachedmesh/flood.py` decides whether a packet is relayed, when, and
-- whether other nodes did it first; `beachedmesh/routes.py` learns from the announces among the
-- packets which neighbour leads to which node, in a hot table of packed entries over a
-- cold store on disk; `beachedmesh/identity.py` builds and verifies announces;
-- `beachedmesh/link.py` puts the headers of the radio round a packet and takes them off; and
-- `beachedmesh/node.py` hands each packet to the flooder and each announce to the routes,
-- and in each turn of its loop sends the relays and the announce that are due. The daemon,
-- `bin/beachedmesh`, sets up the adapter (`beachedmesh/adapter.py`, `beachedmesh/recover.py`),
-- runs the loop of its node, and answers the requests of `beachedmesh/control.py`.
--
-- Files and code
--   Prelude       lists, equality as an interface, results, Boolean tests, the insertion-
--                 ordered dictionary (`dict`, `OrderedDict`), signed numbers, times.
--   Bytes         unsigned integers as byte strings (`int.from_bytes`, `int.to_bytes`).
--   Struct        `struct.pack` and `struct.unpack` for the codes s, B, H, I and b.
--   Frame         beachedmesh/frame.py: `Packet` is the class, `make` its `__init__`; the
--                 children prove the wire format (Wire), the offsets of the fields
--                 (Fields), what is read off the air (Received) and relaying (Relay).
--   Flood         beachedmesh/flood.py: `Flooder` with `on_receive`, `due` and
--                 `next_deadline`. Flood.Delay is `relay_delay`, Flood.Seen the class
--                 `SeenCache`. Flood.Run runs a flooder over a sequence of packets and
--                 transmissions; the other children are named for what they prove.
--   Routes        beachedmesh/routes.py: Routes.Entry has the constants, `Route` and the 13
--                 bytes of `ROUTE_FMT`, Routes.Cold the class `ColdStore`, Routes.Table
--                 the class `RouteTable`, with its look-ups and `expire` in Routes.Table.Lookup.
--                 Routes.Table.Listing has `__iter__` and `neighbours`; Prelude.Sort is
--                 `sorted`. Routes.Table.Warm has `warm`, the `recent` of the store and `close`.
--                 Routes.Cold.Replay is a map without a buffer, with which
--                 Routes.Cold.Refinement compares the store.
--   Identity      beachedmesh/identity.py: node ids, `build_announce`, `parse_announce`;
--                 Identity.Keys has `save`, `load` and `load_or_create`.
--   Link          beachedmesh/link.py: `send` and `recv` are the methods of `MonitorLink`,
--                 Link.Radiotap has `_radiotap_tx` and `parse_radiotap`. Link.Reads and
--                 Link.Received are about any bytes received, Link.Sent about what is sent.
--   Node          beachedmesh/node.py: `init` is `__init__` and `handle` is `_handle`, over the
--                 flooder, the announces and the route table; Node.Loop has `send_announce` and
--                 `poll`. Node.Robust is about any frame, Node.Forged about announces that do
--                 not verify, Node.Start about a new node, Node.Loop.Announce about what
--                 `send_announce` sends, Node.Loop.Invariant and Node.Loop.Sends about the
--                 turns of the loop. Node.Outage is `poll` with a socket that raises (Sends: what
--                 is sent then), Node.Status
--                 is `status`, and Node.Life starts a node and takes it through the steps of
--                 bin/beachedmesh.
--   Text          the operations on `str` that Adapter and Control use.
--   Control       beachedmesh/control.py: `_cmd_routes`, `_cmd_flood` and `_cmd_announce`.
--                 Control.Json is what `json.loads` gives; Control.Server has `handle`, and
--                 `poll` over the connections that wait.
--   Recover       beachedmesh/recover.py: the loops of `wait_for_iface` and `frames_heard`.
--   Daemon        bin/beachedmesh: the loop that brings the adapter up, with `radio_hears`.
--                 Daemon.Main is the main loop over the node and the control socket.
--   Adapter       beachedmesh/adapter.py, and `reload_driver` of beachedmesh/recover.py.
--
-- How state and effects are written
--   A method that changes its object is a function from the object's record to an answer
--   and the record after it; an exception is an `err` beside the record at that moment.
--   A clock reading is an argument, in whole microseconds (`Micros`); the floats of the
--   source are read as such numbers, and so are durations. Readings that the source takes
--   one after the other are separate arguments where a theorem depends on them (`Readings`);
--   `Clocks` has one reading of each clock for a call of the route table.
--   `random.uniform` is a parameter; the theorems that depend on its values assume
--   `IsUniform`, that the draw lies between its arguments. `os.urandom` is an argument, and so
--   are a key file, the bytes or none, and the keys that `generate` draws. The hash
--   and the signatures of `hashlib` and `cryptography` are the fields of a parameter, `Crypto`.
--   The tables of sqlite are rows in a dictionary keyed by `node_id`, with the `INSERT ...
--   ON CONFLICT` written out in `upsert` and the `DELETE` in `fresh_rows`.
--   The socket is an argument of `recv` and `poll`, the bytes that it returns, or none for a
--   timeout; what `poll` sends is appended to `on_air`, without the headers that Link.send adds.
--   In Node.Outage the socket has a number of packets that it takes before it raises `OSError`.
--   `ORDER BY last_seen DESC` is a parameter, `newest_first`, of which the theorems assume
--   `IsNewestFirst`: the same rows, none before a newer one. The commands that Adapter runs,
--   the paths and the links of the system are parameters over a state of the system.
--   A connection of the control socket is what its text parses to, and whether the socket takes
--   each of two answers.
--   A turn of `poll` reads its clocks and random bytes from a record, `Turn`.
--   A loop over a list, or over the words of a header, is structural recursion on it, without
--   fuel. The two loops of Recover wait on a clock: they have fuel, a function from the turn
--   to what the turn reads, and a theorem on how much fuel gives an answer. So has the loop of
--   Daemon, which a stop request, a usable radio or the limit on reloads ends, and the wait for
--   a lost radio in Daemon.Main, which a stop or the radio ends. The main loop itself is
--   structural recursion on the list of the turns before a stop is asked for.
--
-- Not modelled
--   The command line (beachedmesh/cli.py, the other tools of bin/) and all logging. Of
--   bin/beachedmesh the arguments, the signals and the status report. Of control.py the socket,
--   the text of JSON and the client `query`; of link.py the socket and the hardware address; of node.py `run`, `close`, the callbacks, and the timeout
--   that `poll` computes and does not use; of identity.py `shared_secret`, a call of the library;
--   of routes.py `render`, `summary`, `age_str` and the file of the store with its size.
-- wifipi
mod Prelude
pub mod Bytes
pub mod Struct
pub mod Frame
pub mod Flood
pub mod Routes
pub mod Identity
pub mod Text
pub mod Link
pub mod Node
pub mod Control
pub mod Recover
pub mod Daemon
pub mod Adapter
