-- ===== src/Cla/Callbacks.antt =====
-- model/bp-tcp-cla.cc and bp-udp-cla.cc, `SetL4SocketCallbacks`: which method of the layer a socket
-- is told to call on which event, as the calls on the socket, in order.
use ns3_dtn.Prelude.{ℕ, Bool, true, List, [], ◌∷◌}

-- The methods that are called back.
pub data Handler : Type 0 where
  connection_succeeded connection_failed normal_close error_close connection_request : Handler
  new_connection_created data_sent sent data_recv : Handler

-- `SetConnectCallback`, `SetCloseCallbacks`, `SetAcceptCallback`, `SetDataSentCallback`,
-- `SetSendCallback` and `SetRecvCallback` of a socket.
pub data CallbackCall : Type 0 where
  sets_connect sets_close sets_accept : ℕ → Handler → Handler → CallbackCall
  sets_data_sent sets_send sets_recv : ℕ → Handler → CallbackCall

unfoldable pub udp_set_l4_socket_callbacks : ℕ → List CallbackCall
udp_set_l4_socket_callbacks socket =
    sets_close socket normal_close error_close
    ∷ sets_data_sent socket data_sent
    ∷ sets_send socket sent
    ∷ sets_recv socket data_recv
    ∷ []

unfoldable pub tcp_set_l4_socket_callbacks : ℕ → List CallbackCall
tcp_set_l4_socket_callbacks socket =
    sets_connect socket connection_succeeded connection_failed
    ∷ sets_close socket normal_close error_close
    ∷ sets_accept socket connection_request new_connection_created
    ∷ sets_data_sent socket data_sent
    ∷ sets_send socket sent
    ∷ sets_recv socket data_recv
    ∷ []

-- What the layer for TCP does when it is called back: `ConnectionRequest` accepts,
-- `NewConnectionCreated` sets the callbacks again, on the socket of the connection, and
-- `ConnectionSucceeded` and `ConnectionFailed`, like `NormalClose`, `ErrorClose`, `DataSent` and
-- `Sent` of both layers, do nothing.
abbrev pub connection_requested : ℕ → Bool
connection_requested socket = true

unfoldable pub connection_created : ℕ → List CallbackCall
unfolding tcp_set_l4_socket_callbacks
connection_created socket = tcp_set_l4_socket_callbacks socket

abbrev pub only_logged : ℕ → List CallbackCall
only_logged socket = []
