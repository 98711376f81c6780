-- ===== src/Lib.antt =====
-- A model of sakura-mqtt, an MQTT client SDK in C, with theorems about its packets, its buffers, its
-- requests and the handling of what it receives.
--
-- The program. The application opens a client in the table of src/sakura_mqtt_client.c and names it by
-- its index. By it the table finds the client for the requests of src/sakura_mqtt_core.c (connect,
-- disconnect, publish, subscribe, unsubscribe) and for the tick, which looks after the client, and
-- connects and subscribes again after an error. A request takes a free message tracker, lets an encoder of
-- src/sakura_mqtt_pack.c write a packet into the send buffer behind a six-byte header of the
-- library's own (tracker index, packet type, length), and tries to send the first packet of the
-- buffer (src/sakura_mqtt_net.c). Messages with an id are copied into a backup buffer, from which
-- they can be sent again. Received bytes are collected in the receive buffer, cut into packets, and
-- given to the handlers, which update the trackers, answer the broker and call the application. The
-- name of a broker becomes an address through the resolver of src/protocol/dns/sakura_dns.c, which
-- keeps a list of hosts, writes questions into UDP packets and reads the answers. On a small system a
-- pool of sockets queues the packets of each socket, and the turns of its loop send them, read what has
-- come and call back.
--
-- The files.
--   Common    the native numbers, lists and options, the Boolean tests, and machine words. An
--             int32_t or uint32_t is its bit pattern below 2^32 where the source computes with it;
--             `slt` is the signed comparison of two patterns. Return codes are integers.
--   Codec     src/sakura_mqtt_pack.c. Codec/Types has the types of inc/sakura_mqtt.h and
--             inc/sakura_mqtt_client.h, Write the write_ functions, Measure the length
--             calculations, Encode the mqtt_encode_ functions. A cursor is the list of the bytes
--             written so far, or none for NULL; an encoder returns a length and the cursor. Bytes
--             are written without a look at buflen, as in C, so that a write beyond the buffer
--             shows as a list that is longer than buflen. A C string is the list of its bytes.
--   Parse     the reading of packets in src/sakura_mqtt_core.c (mqtt_read_remaining_length,
--             mqtt_read_message, the fields of a PUBLISH).
--   Frame     assembly_send_packet_header and parse_send_packet_header, and the send buffer as a
--             queue of frames.
--   Client    the state of a client (Client/State, mqtt_client_t) and its operations: Tracker the
--             message trackers, Send mqtt_try_send, Topics the list of topics, Submit
--             mqtt_update_message_state and the backup copy, Request the requests, Backup the
--             backup buffer, Receive mqtt_handle_messages with the handlers, Resend the messages
--             that are sent again, Expire mqtt_loop_once and the timeouts, Keepalive the
--             keepalive, the start of a connection and the reset, Tick mqtt_client_tick, Callbacks
--             the reports of the socket layer (src/sakura_mqtt_net.c). Client/Valid has the
--             invariant and the proofs about it, Client/Run the steps of a client's life.
--   Manager   src/sakura_mqtt_client.c: the table of clients and its searches, Lifecycle the start and
--             the end of the library, Open the life of a client, Options sakura_mqtt_set_option, Connection mqtt_connect_wrapper and
--             the account, Requests the requests by index, Tick sakura_mqtt_tick. Manager/Table
--             has the invariant of the table, Lookup what an index finds, Run the steps of the
--             table's life.
--   Utils     src/utils/sakura_utils.c: the byte orders, the swap of two bytes, and the reading and
--             printing of IPv4 addresses.
--   Dns       src/protocol/dns/sakura_dns.c: Cache the list of hosts with its searches and changes,
--             Encode the names in a question, Decode the names in an answer, Request the packet that
--             asks, Response the packet that answers. The list of hosts and what it depends on is
--             one record.
--   Sockets   src/platform/embed/socket/sakura_socket_lifecycle.c: the pool of sockets with its
--             handles and their queues, and in Loop the turn of sakura_socket_loop_once.
--   Tests     runs on concrete inputs.
-- A function keeps its name without the prefix mqtt_.
--
-- What the model takes as parameters, all of them fields of a state. Of a client: the answer of the
-- socket layer to its n-th call (net_results), whether the n-th allocation succeeds (mem_ok), and
-- the bytes that stand in the send buffer behind its end (stale), since an encoder may say that it
-- wrote more than it did. Calls of the socket layer and of the application are recorded in events.
-- Of the table: whether its n-th allocation succeeds (mem_ok), and what sakura_sock_create (created)
-- and sakura_sock_connect_wrapper (connect_answer) return. Of the resolver: whether its n-th
-- allocation succeeds (mem_ok), what connecting and sending return, and the byte order of the
-- machine (big); a received packet is a memory, a function from places to bytes, since the source
-- reads behind the end of a packet too. Of the pool of sockets: the answers of the driver to its n-th
-- calls of each kind, and whether its n-th allocation succeeds. What the application's callbacks and the
-- socket driver call in turn are steps of their own.
--
-- Bounds and fuel. write_remaining_len has at most five rounds in the source, and the model counts
-- them. mqtt_handle_messages runs on the number of received bytes, and a packet takes two at least.
-- The search in the backup buffer runs on the number of its bytes, and a step takes six, unless a
-- length field has wrapped around; the source then goes round for ever, and the model says `stuck`.
-- The sizes of the send and backup buffers are below 2^28 in the invariant.
--
-- mqtt_loop_once goes through the 24 trackers, mqtt_remove_send_message runs on the number of bytes in
-- the send buffer, and mqtt_tick_do_subscribe on the length of the list of topics.
--
-- decode_dot_str follows the pointers inside a packet without a limit, so the model gives it a number
-- of rounds and tells a name that has ended from one that has not: where every pointer leads back, 513
-- rounds more than the place of the name are enough, and there is a packet on which no number is.
-- The loops over questions and answers count down what is left of them. sock_send_bytes calls the
-- driver as long as bytes are left, on a number of rounds for each message; as many as it has bytes are
-- enough if a call takes a byte at least.
--
-- Not modelled: sakura_mqtt_get_version, sakura_mqtt_query_properties and the setters of
-- the tick rate and the log in src/sakura_mqtt_client.c, and what is compiled out there; the list
-- macros of inc/sakura_list.h, since a linked list is a List here; the static heap,
-- which is a copy of a heap allocator with a wrapper; the other socket files, the mutex, daemon, memory and log files,
-- which wrap the operating system; the vendored src/utils/cjson; demo, tests and tools. The room of eight entries of the local array of
-- mqtt_topics_list_append is not modelled. Of the memory behind the received bytes, which
-- mqtt_topics_update may read, the model takes the first byte for zero. Of the move in
-- mqtt_remove_backup_message the model has the bytes up to the new length, and not those behind the
-- content that are moved with them. The resolver is modelled from
-- sakura_dns_init on, with names of hosts that are shorter than the 256 bytes of their array, and
-- the pool of sockets from its first sakura_socket_init on, with messages shorter than 2^31 and callbacks
-- that do not call into it in turn.
pub mod Common
pub mod Codec
pub mod Parse
pub mod Frame
pub mod Client
pub mod Manager
pub mod Utils
pub mod Dns
pub mod Sockets
mod Tests
