-- ===== src/TcpServerSingle/Tests.antt =====
-- The theorems on a server that accepts twice, the second time with an error, and loses one peer.
use conex.Prelude.{◌≡◌, refl, List, [], ◌∷◌, negsuc}
use conex.Acceptor.{handle_read, refused, accepted}
use conex.TcpServerSingle.{
  Event, make_server, new_connection, erase_connection, close_connection, on_new_connection,
  on_event, on_events, accepts, closes,
}
use conex.TcpServerSingle.Connections.{IsReported, connections_lem, AllPeers, peers_lem}

abbrev events : List Event
events = accepts 0 (accepted 5 77) ∷ accepts 0 (refused 24) ∷ closes 1 ∷ []

-- A refused call leaves a connection with the descriptor -1 behind.
after_events :
    (on_events 80 events make_server).connections
    ≡ (record { pointer = 2; sockfd = negsuc 0; local = 80; peer = 80 }) ∷ []
unfolding on_events on_event handle_read on_new_connection new_connection close_connection
    erase_connection
after_events = refl

connections_lem_example : IsReported (on_events 80 events make_server)
connections_lem_example = connections_lem 80 events make_server refl

peers_here : AllPeers 80 (on_events 80 events make_server).connections
peers_here = peers_lem 80 events make_server tt
