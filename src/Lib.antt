-- ===== src/Lib.antt =====
-- A verification library for tcp-client-server: a server that takes datagrams about topics and passes them
-- on, over TCP, to the clients that have subscribed to these topics, and the subscriber that is such a
-- client.
--
-- The parts of the program, and where they are modelled:
--
--   * `Errors` (src/utils.c, src/include/utils.h): `err_t` with its values, and the texts of `debug_msg`.
--   * `Ipow` (src/utils.c): `ipow`, the power on 32-bit words.
--   * `PollVec` (src/poll_vec.c): the growing vector of `struct pollfd`, with its five functions under
--     their names.
--   * `Tcp` (src/tcp_type.c): the packed `tcp_msg_t`, `send_tcp_msg` and `recv_tcp_msg`.
--   * `ClientVec` (src/client_vec.c): the table of the clients, with their status, sockets, topics, options
--     and queues. `ClientVec` has the functions on the table, `ClientVec.Topics` those on the topics and
--     the queue of one client; the other modules below hold what is proved, named for what it is about.
--   * `Udp` (src/udp_type.c): a datagram parsed into `udp_type_t`.
--   * `Inet`: the calls of sockets, `poll` and `fgets`, and what both programs share of their use.
--   * `Server` (src/server_utils.c): the record of the server, `Server.Printing` for
--     `pack_topic_to_tcp_msg`, and `Server.Handlers` for `process_server_tcp_msg`, `add_server_udp_msg`,
--     `transmit_topic_to_clients` and `retransmit_topics_to_client`, `Server.Events` for
--     `process_ready_fds`, with a function for each kind of descriptor, `Server.Setup` for `init_server` and
--     `free_server`, and `Server.Program` (src/server.c) for `wait_for_ready_fds`, `check_if_exit` and
--     `main`. `Server.Descriptors` has what ties the descriptors that are open to the clients and the poll
--     vector.
--   * `Subscriber` (src/subscriber_utils.c): `process_subscribe_cmd` and `process_unsubscribe_cmd`, then
--     `Subscriber.Setup` for `init_client` and `free_client`, and `Subscriber.Program` (src/subscriber.c) for
--     `wait_for_ready_fds`, `process_ready_fds`, `get_cmd_line` and `main`.
--
-- The server stores each datagram (`add_server_udp_msg`), then goes through the table of clients: it sends
-- the message to the active ones with the topic, and puts a pointer to the message in the queues of those
-- that are away and have asked for it (`add_topic_msg_for_client`). A client that registers again
-- (`register_new_client`) gets its queue (`retransmit_topics_to_client`). The requests of clients come
-- as TCP messages and end in `subscribe_client_to_topic` and `unsubscribe_client_from_topic`.
--
-- Conventions. A function takes the state that it reads and returns an error, the state that it
-- leaves, and the state of the system, `World`. The calls of the C library and the kernel are the fields of
-- the record `Os`, which every component takes as a parameter; `Os.Laws` has what is relied on of
-- them, as hypotheses: `realloc` refuses more than PTRDIFF_MAX bytes, and `send` and `recv` move bytes of a
-- stream. `Os.Script` is a machine that answers them, on which the witnesses run. Pointers that may be
-- NULL are options, arrays are lists with a capacity beside them, and strings are lists of bytes without
-- the NUL. `size_t` products and 16-bit and 32-bit words wrap around as in the source. The arithmetic and
-- the printing of `double` are the parameter `Doubles`. A pointer to a message is the address of its array with an
-- index, so that it leads nowhere when `realloc` has moved the array.
--
-- Loops are structural recursion on the list or the number of rounds left, or, for `send_tcp_msg`,
-- `recv_tcp_msg` and `ipow`, recursion on the accessibility of what is left. Only the loop of
-- `process_ready_fds` runs on fuel: one round for each entry, one for each that an accepted connection may
-- add, and one to stop. `Server.Printing.decimal` has room for ten digits, enough for every number below
-- 2 ^ 32. The endless loops of both programs are given a number of turns, and what is proved of them holds
-- for any number; a program that is still in its loop after its turns says so in its result. The calls
-- `accept`, `recvfrom` and `printf` are the parameter `Net`, the other calls of sockets, `poll` and `fgets` the
-- parameter `Inet`. `Descriptors` and `Sockets` have what is relied on of them: which calls open and close
-- descriptors, and that a new descriptor is one that was not open. `Os.Desk` with `Server.Descriptors.Desk` and
-- `Inet.Desk` is a machine that answers all of them. `Separate` has that each socket is a stream of its own, as on
-- the machine `Os.Post`.
--
-- Not modelled: what only prints (`print_udp_type`; `debug_msg_and_exit` is printing and exiting where the
-- main programs call it), and `free`, since no state that is modelled shows it. The copies of ids into
-- ten bytes are modelled as copies of the whole id.
pub mod Prelude
pub mod Errors
pub mod Ipow
pub mod Os
pub mod PollVec
pub mod Tcp
pub mod ClientVec
pub mod Udp
pub mod Inet
pub mod Server
pub mod Subscriber
