-- ===== src/Lib.antt =====
-- Verification library of the IEC 61850 stack (the Rust workspace under crates/).
--
-- The program. A substation device and its clients speak three protocols. MMS (crates/iec61850-mms)
-- is a request and response protocol over TCP: its PDUs are BER (crates/iec61850-ber), carried by
-- COTP data units in TPKT packets (crates/iec61850-mms/src/transport). GOOSE (crates/iec61850-goose)
-- and sampled values (crates/iec61850-sv) are multicast Ethernet frames (crates/iec61850-l2) whose
-- payload is BER as well.
--
-- Files and code:
--   Base: numbers, lists, machine words, Boolean tests, results; Base.Maps, Base.PairMaps and
--     Base.Strings: what the code uses of `HashMap`, `HashSet` and `str`.
--   Ber.Tag, Ber.Length, Ber.Primitives, Ber.Base128: crates/iec61850-ber/src/ber/tag.rs, length.rs, prim.rs.
--   Ber.Reader, Ber.Writer: ber/reader.rs and ber/writer.rs. A `&mut` cursor or buffer is a value that
--     is taken and returned.
--   Ber.Fields: the readers and writers on the fields of a structure, optional ones included.
--   Ber.Nested, Ber.Children: what nested writers append, and the search for one of the children of a TLV.
--   Ber.Data: crates/iec61850-ber/src/data.rs. A `Vec<MmsData>` is `Items`.
--   Transport: crates/iec61850-mms/src/transport/tpkt.rs, cotp.rs, connection.rs and src/error.rs. The
--     TCP or TLS stream is the record `Stream`, with `IsOrdered` for a stream that keeps the octets in
--     order; its `write_all` stands for `write_all` with the `flush` behind it. `Delivery` composes writer
--     and reader.
--   Ethernet: crates/iec61850-l2/src/eth.rs. A signer is the record `FrameSigner`.
--   Goose.Pdu, Goose.Frame: crates/iec61850-goose/src/pdu.rs and frame.rs, over Ber and Ethernet.
--   Goose.Publisher, Goose.Subscriber: publisher.rs and subscriber.rs. The loop of `run` is a function of
--     the state and an event, with the timer of the sweep in `Subscriber.Timer`; `Goose.Delivery` puts the
--     subscriber, with its filter, its gate and its sweeps, behind a publisher.
--   Sv.NineTwoLe, Sv.Pdu, Sv.Frame: crates/iec61850-sv/src/nine_two_le.rs, pdu.rs and frame.rs.
--   Sv.Publisher, Sv.Subscriber: publisher.rs with config.rs, and subscriber.rs, as a step per period
--     and per received frame; `Sv.Delivery` puts a subscriber behind a publisher.
--   Model.Fc, Model.Reference, Model.Quality: crates/iec61850-model/src/fc.rs, reference.rs, quality.rs;
--     `Sv.Clock` reads the time stamps of a publisher with them.
--   Mms.Mapping: crates/iec61850-mms/src/mapping.rs.
--   Mms.Upper.Session, Acse, Presentation: crates/iec61850-mms/src/upper/session.rs, acse.rs and
--     presentation.rs: the CONNECT and ACCEPT, the AARQ and AARE, and the contexts that carry them.
--   Mms.Pdu, NameList, Read, Write, Identify, Initiate, Token, VariableLists, Journal: pdu.rs, get_name_list.rs,
--     read.rs, write.rs, identify.rs, initiate.rs, token.rs, named_var_list.rs and journal.rs of
--     crates/iec61850-mms/src/mms. Mms.Loop: the loops over the elements of a structure that they share.
--     Mms.Carried and Mms.Services: each service from its writer to the decoder of the other side.
--     The signature of a token is an argument, since it is made and checked by the cryptographic packages.
--   Mms.Client: browsing of crates/iec61850-mms/src/client.rs; a request with its answer is an argument,
--     and `Client.Directory` fills it with the encoded request, the server's page and the encoded answer.
--   Mms.Server: crates/iec61850-mms/src/server.rs. Handshake: an association, from the first data of a
--     connection to the answer and the role, with the check of the peer's certificate as an argument.
--     Namespace and Answers: the names that the server lists, page by page, with `partition_point` as
--     the standard library documents it. Permissions and Access: roles and the policy that
--     gives one. Buffer: the buffer of a buffered report control block, from `buffering_task` to
--     `drain_buffer`. Reservation: `check_rcb_reservation` and the guard of a connection. Store and
--     Control: the values, and `operate` with the selections in front of it. Settings: the setting
--     groups. What these need of the rest of the server (which blocks and items there are, the clock,
--     the verifier of tokens) is an argument; locks are not modelled, since each step holds its lock
--     to its end.
--   Tests: vectors of the source's tests, and each theorem at a concrete input.
--
-- Conventions. A byte string is a list of natural numbers, with `IsBytes` where each below 256
-- matters. An `i64` or an `f64` is its pattern of 64 bits. Wrap-around is written out. Errors keep the
-- source's cases without their texts. What the codec takes from Rust's standard library (UTF-8
-- validation, conversions of floats) is the record `Ber.Std.Std`, and its laws are `IsIeee`.
--
-- Fuel. The loop of `Ber.Data.decode_items` has the length of its input as fuel, and each round reads
-- two octets at least; `decode_at` recurses on the levels of nesting that are left. `out_of_fuel` is a
-- value of the model's error types only. `recv_data` has no bound in the source, and its fuel is the
-- number of packets that it may read; the chunks of a TSDU and the parameters of a confirmation are
-- cut with their length as fuel. The ASDUs of a sampled value are read with one round per octet, and
-- a round reads two at least. The loops of Mms.Loop, Ber.Children and of the session's parameters have a
-- round per octet as well. `name_list_loop` has no bound in the source, and its fuel is the number of
-- requests.
--
-- Not modelled: of the server the reading and writing of values, reports, files, journals and the loop of
-- a connection; of the client all but browsing; the codecs of types, files and reports; the
-- check of the results in a CPA and the texts of refusals; the tree of the data model; SCL; key rings;
-- sockets; TLS; the applications under apps/; logging and the texts of errors.
pub mod Base
pub mod Ber
pub mod Transport
pub mod Ethernet
pub mod Goose
pub mod Sv
pub mod Model
pub mod Mms
pub mod Tests
