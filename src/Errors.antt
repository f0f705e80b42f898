-- ===== src/Errors.antt =====
-- utils.h and utils.c: the error class `err_t` with its values, and the texts of `debug_msg`.
mod Tests
use Prim.Native.String.{String}
use tcp_client_server.Prelude.{suc, List, [], ◌∷◌, Option, some, get_elem?}
use tcp_client_server.Prelude.Int.{ℤ, pos, negsuc}

-- `err_t`
pub data Err : Type 0 where
  ok ok_with_exit invalid_port_number poll_failed_timed_out cmd_input_is_null : Err
  server_input_is_not_null server_input_is_null server_failed_allocation server_failed_udp : Err
  server_failed_tcp server_failed_poll_vec server_could_not_connect_new_client : Err
  server_failed_accept_tcp server_failed_clients_vec server_unknown_command : Err
  server_could_not_add_new_udp poll_vec_input_is_not_null poll_vec_input_is_null : Err
  poll_vec_failed_allocation poll_vec_failed_realloc poll_vec_input_fd_idx_out_of_bound : Err
  udp_input_buf_is_null udp_input_var_is_null udp_unknown_data_type : Err
  client_input_is_not_null client_input_is_null client_input_connect_is_null : Err
  client_failed_allocation client_failed_tcp client_failed_poll_vec : Err
  tcp_input_socket_invalid tcp_input_buf_is_null tcp_input_buf_len_is_zero : Err
  tcp_failed_send_recv clients_vec_input_is_not_null clients_vec_failed_allocation : Err
  clients_vec_input_is_null clients_vec_failed_realloc : Err
  clients_vec_failed_register_allocation client_vec_client_already_connected : Err
  clients_vec_input_fd_idx_invalid clients_vec_client_already_dead : Err
  clients_vec_close_client_not_found clients_vec_client_not_found : Err
  clients_vec_cound_not_add_a_topic clients_vec_cound_not_find_topic : Err
  clients_vec_index_out_of_bound input_wrong_format : Err

-- The value of an error in C: `negsuc n` is -(n + 1).
unfoldable pub value : Err → ℤ
value ok = pos 0
value ok_with_exit = negsuc 0
value invalid_port_number = negsuc 1
value poll_failed_timed_out = negsuc 2
value cmd_input_is_null = negsuc 3
value server_input_is_not_null = negsuc 4
value server_input_is_null = negsuc 5
value server_failed_allocation = negsuc 6
value server_failed_udp = negsuc 7
value server_failed_tcp = negsuc 8
value server_failed_poll_vec = negsuc 9
value server_could_not_connect_new_client = negsuc 10
value server_failed_accept_tcp = negsuc 11
value server_failed_clients_vec = negsuc 12
value server_unknown_command = negsuc 13
value server_could_not_add_new_udp = negsuc 14
value poll_vec_input_is_not_null = negsuc 15
value poll_vec_input_is_null = negsuc 16
value poll_vec_failed_allocation = negsuc 17
value poll_vec_failed_realloc = negsuc 18
value poll_vec_input_fd_idx_out_of_bound = negsuc 19
value udp_input_buf_is_null = negsuc 20
value udp_input_var_is_null = negsuc 21
value udp_unknown_data_type = negsuc 22
value client_input_is_not_null = negsuc 23
value client_input_is_null = negsuc 24
value client_input_connect_is_null = negsuc 25
value client_failed_allocation = negsuc 26
value client_failed_tcp = negsuc 27
value client_failed_poll_vec = negsuc 28
value tcp_input_socket_invalid = negsuc 29
value tcp_input_buf_is_null = negsuc 30
value tcp_input_buf_len_is_zero = negsuc 31
value tcp_failed_send_recv = negsuc 32
value clients_vec_input_is_not_null = negsuc 33
value clients_vec_failed_allocation = negsuc 34
value clients_vec_input_is_null = negsuc 35
value clients_vec_failed_realloc = negsuc 36
value clients_vec_failed_register_allocation = negsuc 37
value client_vec_client_already_connected = negsuc 38
value clients_vec_input_fd_idx_invalid = negsuc 39
value clients_vec_client_already_dead = negsuc 40
value clients_vec_close_client_not_found = negsuc 41
value clients_vec_client_not_found = negsuc 42
value clients_vec_cound_not_add_a_topic = negsuc 43
value clients_vec_cound_not_find_topic = negsuc 44
value clients_vec_index_out_of_bound = negsuc 45
value input_wrong_format = negsuc 46

-- What `debug_msg` prints, before its line feed.
unfoldable pub debug_msg : Err → String
debug_msg ok = "[DEBUG] No error found."
debug_msg ok_with_exit = "[DEBUG] Client is disconected or cannot read data."
debug_msg invalid_port_number = "[DEBUG] Input port number is not valid."
debug_msg poll_failed_timed_out = "[DEBUG] Poll cannot timeout."
debug_msg cmd_input_is_null = "[DEBUG] Input cmd for stdin must not be NULL."
debug_msg server_input_is_not_null = "[DEBUG] Input server must be NULL to allocate."
debug_msg server_input_is_null = "[DEBUG] Input server must not be NULL."
debug_msg server_failed_allocation = "[DEBUG] Could not allocate memory for server."
debug_msg server_failed_udp = "[DEBUG] Could not bind an udp socket for server."
debug_msg server_failed_tcp = "[DEBUG] Could not bind an tcp socket for server."
debug_msg server_failed_poll_vec = "[DEBUG] Could not allocate the poll vector."
debug_msg server_could_not_connect_new_client = "[DEBUG] Could not get the id of the client."
debug_msg server_failed_accept_tcp = "[DEBUG] Could not accept any new clients."
debug_msg server_failed_clients_vec = "[DEBUG] Could not allocate the clients vector."
debug_msg server_unknown_command = "[DEBUG] Could not match the client command."
debug_msg server_could_not_add_new_udp =
    "[DEBUG] Could not add a recv udp package to the server queue."
debug_msg poll_vec_input_is_not_null = "[DEBUG] Input poll vecor must be NULL to allocate."
debug_msg poll_vec_input_is_null = "[DEBUG] Input poll vectpr must not be NULL."
debug_msg poll_vec_failed_allocation = "[DEBUG] Could not allocate memory for poll vec."
debug_msg poll_vec_failed_realloc = "[DEBUG] Could not reallocate more fds for poll vec."
debug_msg poll_vec_input_fd_idx_out_of_bound =
    "[DEBUG] The fd index is to large for the poll vector."
debug_msg udp_input_buf_is_null = "[DEBUG] Input udp buffer must not be NULL."
debug_msg udp_input_var_is_null = "[DEBUG] Input prasing udp variable must not be NULL."
debug_msg udp_unknown_data_type = "[DEBUG] UDP message type is unknown."
debug_msg client_input_is_not_null = "[DEBUG] Input clients vector must be NULL to allocate."
debug_msg client_input_is_null = "[DEBUG] Input clients vector must not be NULL."
debug_msg client_input_connect_is_null = "[DEBUG] Input subscriber informations must not be NULL."
debug_msg client_failed_allocation = "[DEBUG] Could not allocate mameory for the subscriber."
debug_msg client_failed_tcp = "[DEBUG] Could not connect subscriber to the server."
debug_msg client_failed_poll_vec = "[DEBUG] Could not allocate the poll vector for subscriber."
debug_msg tcp_input_socket_invalid = "[DEBUG] Input TCP socket is negative."
debug_msg tcp_input_buf_is_null = "[DEBUG] Input buffer for send/recv must not be NULL."
debug_msg tcp_input_buf_len_is_zero = "[DEBUG] Input buffer size for send/recv must not be 0."
debug_msg tcp_failed_send_recv = "[DEBUG] TCP send/recv 0 bytes of data."
debug_msg clients_vec_input_is_not_null = "[DEBUG] Input clients vector must be NULL to allocate."
debug_msg clients_vec_failed_allocation = "[DEBUG] Could not allocate memory for clients vector."
debug_msg clients_vec_input_is_null = "[DEBUG] Input clients vector must not be NULL."
debug_msg clients_vec_failed_realloc = "[DEBUG] Could not realloc more memory for clients vector."
debug_msg clients_vec_failed_register_allocation =
    "[DEBUG] Could not allocate memory for a new client in server."
debug_msg client_vec_client_already_connected = "[DEBUG] The client is already active."
debug_msg clients_vec_input_fd_idx_invalid = "[DEBUG] Client fd must not be negative."
debug_msg clients_vec_client_already_dead = "[DEBUG] Client connection is already closed."
debug_msg clients_vec_close_client_not_found =
    "[DEBUG] Input client fd cannot be found in clients vector for closing."
debug_msg clients_vec_client_not_found = "[DEBUG] Client cound not be found in the clients vector."
debug_msg clients_vec_cound_not_add_a_topic =
    "[DEBUG] Cound not add a new subscribed topic for client."
debug_msg clients_vec_cound_not_find_topic = "[DEBUG] Cound not find the topic in order to remove."
debug_msg clients_vec_index_out_of_bound =
    "[DEBUG] Input client index is greater than the clients vector length."
debug_msg input_wrong_format = "[DEBUG] Input command has not a valid format."

abbrev errors : List Err
errors =
    ok ∷ ok_with_exit ∷ invalid_port_number ∷ poll_failed_timed_out ∷ cmd_input_is_null
    ∷ server_input_is_not_null ∷ server_input_is_null ∷ server_failed_allocation ∷ server_failed_udp
    ∷ server_failed_tcp ∷ server_failed_poll_vec ∷ server_could_not_connect_new_client
    ∷ server_failed_accept_tcp ∷ server_failed_clients_vec ∷ server_unknown_command
    ∷ server_could_not_add_new_udp ∷ poll_vec_input_is_not_null ∷ poll_vec_input_is_null
    ∷ poll_vec_failed_allocation ∷ poll_vec_failed_realloc ∷ poll_vec_input_fd_idx_out_of_bound
    ∷ udp_input_buf_is_null ∷ udp_input_var_is_null ∷ udp_unknown_data_type
    ∷ client_input_is_not_null ∷ client_input_is_null ∷ client_input_connect_is_null
    ∷ client_failed_allocation ∷ client_failed_tcp ∷ client_failed_poll_vec
    ∷ tcp_input_socket_invalid ∷ tcp_input_buf_is_null ∷ tcp_input_buf_len_is_zero
    ∷ tcp_failed_send_recv ∷ clients_vec_input_is_not_null ∷ clients_vec_failed_allocation
    ∷ clients_vec_input_is_null ∷ clients_vec_failed_realloc
    ∷ clients_vec_failed_register_allocation ∷ client_vec_client_already_connected
    ∷ clients_vec_input_fd_idx_invalid ∷ clients_vec_client_already_dead
    ∷ clients_vec_close_client_not_found ∷ clients_vec_client_not_found
    ∷ clients_vec_cound_not_add_a_topic ∷ clients_vec_cound_not_find_topic
    ∷ clients_vec_index_out_of_bound ∷ input_wrong_format ∷ []

of_value : ℤ → Option Err
of_value (pos n) = some ok
of_value (negsuc n) = get_elem? errors (suc n)
