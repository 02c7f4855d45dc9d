-- ===== src/Lib.antt =====
-- finsy: the model of a P4Runtime controller library and its theorems.
--
-- finsy (finsy/ in the repository) is a Python library to control switches with P4Runtime. A
-- `Controller` owns switches; a `Switch` opens a client and runs an arbitration with the switch for
-- the role of the primary client, then reads and writes entities, whose fields are encoded by the
-- codecs of values.
--
-- The files, each with the code that it models:
--   Values (Masks, Exact, Lpm, Ternary, Range, Signed): finsy/p4values.py. A value given by the
--     user (`_ExactValue` and its like) is a data type with a constructor for each Python type;
--     `encode_exact`, `decode_exact`, `format_exact` and the others keep their names. A bit width is
--     a natural number, and a width of 0 stands for a string. `encode_masked` is `encode_exact` with
--     its mask argument.
--   MacAddress: finsy/macaddr.py.
--   Arbitrator: finsy/p4arbitrator.py. The state is the record `Arbitrator`; a method is a
--     function on a `Session`, which adds the election IDs sent and the list of the events that the
--     stream will bring. `handshake` loops while the switch answers NOT_FOUND; the fuel of
--     `settle_all` is one more than the number of the events, and every round takes one.
--   Futures: finsy/futures.py. `Countdown` holds the counter and the number of its future in a store
--     of futures; one task may wait for it, and what may happen is the relation `Step`.
--   Schema.EntityMap: P4EntityMap of finsy/p4schema.py, two association lists and an instance that tells
--     the ID, the name and the alias of an entity. `add` and its parts return the map and what was raised.
--   Schema.DataTypes: the data types of finsy/p4schema.py (P4BitsType, P4StructType and the others) as
--     one data type; `encode_data` and `decode_data` recurse on it. A value that the user gives is
--     the data type `Value`, and what has another Python type than the code expects is refused.
--   Schema.MatchField, Schema.Actions: P4MatchField, P4ActionParam, and what is read of P4Action and
--     P4Table.
--   Entities: P4TableAction and P4IndirectAction of finsy/p4entity.py; Entities.Tables: P4TableMatch
--     and P4TableEntry; Entities.Resources: registers, meters, counters and digests; Entities.Profiles:
--     members and groups of action profiles; Entities.Replication: multicast groups and clone
--     sessions; Entities.Dispatch: `decode_entity`; Entities.Updates: the
--     types of updates and `encode_updates`, where an entity that `+`, `-` or `~` changes is a new one.
--     A method `encode` takes the part of the schema
--     that it reads, and a protobuf message is a record of its fields, where one that is not set
--     reads as its default.
--   Client: the errors of finsy/p4client.py.
--   Switch.Tasks: the class SwitchTasks of finsy/switch.py, on the countdown of Futures.
--   Switch.Write: the requests to write and delete of finsy/switch.py, on encoded messages. What the
--     client was sent is a list; what the switch answers is a parameter.
--   Switch.Queues: the queues of finsy/switch.py for packets, digest lists and idle timeouts.
--   Controller: finsy/controller.py. A method is a function on the record `Controller` that returns or
--     raises and leaves a state; the callback of a control task is `switch_done`.
--   Ports: finsy/ports.py. A subscription is the list of the updates that it brings.
--   GnmiPath: finsy/gnmipath.py, on lists of elements.
--   EditDistance: finsy/stringutil.py.
--   Grpc: the status codes of finsy/grpcutil.py.
--   Bits, Bytes, Text, IpAddress, Utf8: what the code uses of Python's language and library. The
--     bytes of a string are numbers below 256, and a text is a list of code points.
--   Prelude: Boolean tests, lists, errors as values, signed integers.
-- Theorems about a part stand in its child modules; runs and instances at concrete values stand in
-- the modules named Examples, and in IpAddressTests.
--
-- Exceptions are told apart by their class; their messages and the log are left out, and an
-- OverflowError is told from a ValueError. `int` of a text reads ASCII digits only. gRPC and
-- protobuf are seen as the events and messages that they carry, and the client is open where the
-- arbitrator sends. Election IDs are below 2 ^ 128.
--
-- The schema is taken as it stands: `encode` and `decode` read tables, actions and resources that are
-- in an EntityMap. Numbers are not checked against the widths of protobuf's fields.
--
-- Not modelled: how a schema is built from a P4Info, its cache and its description, and packet
-- metadata (finsy/p4schema.py); the direct meters and counters, value sets, extern entries, packets,
-- and digest lists of finsy/p4entity.py; the life cycle of the switch and its pipeline,
-- the texts of gNMI paths and the gNMI client; the runner and the log, which only do I/O; the
-- generated messages in finsy/proto.
pub mod Arbitrator
pub mod Bits
pub mod Bytes
pub mod Client
pub mod Controller
pub mod EditDistance
pub mod Entities
pub mod Futures
pub mod GnmiPath
pub mod Grpc
pub mod IpAddress
pub mod IpAddressTests
pub mod MacAddress
pub mod Ports
pub mod Prelude
pub mod Schema
pub mod Switch
pub mod Text
pub mod Utf8
pub mod Values
