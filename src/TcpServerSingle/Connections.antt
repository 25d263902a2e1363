-- ===== src/TcpServerSingle/Connections.antt =====
-- The set of connections against what the connection callback is told.
use conex.Prelude.{
  ℕ, ◌≡◌, refl, sym, ap, ◌∙◌, inl, inr, List, [], ◌∷◌, ◌++◌, map, ◌==◌, if◌then◌else◌, Bool-cases,
}
use conex.Acceptor.{handle_read}
use conex.TcpServerSingle.{
  ServerConnection, Report, TcpServerSingle, Event, new_connection, erase_connection,
  close_connection, on_new_connection, on_event, on_events, is_up, is_down, accepts, closes,
}

abbrev pub erase : ℕ → List ℕ → List ℕ
erase p [] = []
erase p (q ∷ qs) = let rest = erase p qs in if q == p then rest else q ∷ rest

-- The connections that are open after such calls of the callback, of those open before.
abbrev pub replay : List ℕ → List Report → List ℕ
replay open_ones [] = open_ones
replay open_ones (is_up p ∷ rest) = replay (open_ones ++ p ∷ []) rest
replay open_ones (is_down p ∷ rest) = replay (erase p open_ones) rest

abbrev pub pointers : List ServerConnection → List ℕ
pointers cs = map (λ c. c.pointer) cs

pointers-append : (cs ds : List ServerConnection) → pointers (cs ++ ds) ≡ pointers cs ++ pointers ds
pointers-append [] ds = refl
pointers-append (c ∷ cs) ds = ap (λ xs. c.pointer ∷ xs) (pointers-append cs ds)

pointers-erase :
    (p : ℕ) (cs : List ServerConnection) → pointers (erase_connection p cs) ≡ erase p (pointers cs)
unfolding erase_connection
pointers-erase p [] = refl
pointers-erase p (c ∷ cs) = elim (Bool-cases (c.pointer == p)) [
  | inl t ↦ rw t (pointers-erase p cs)
  | inr t ↦ rw t (ap (λ xs. c.pointer ∷ xs) (pointers-erase p cs))
]

replay-append :
    (ps : List ℕ) (rs qs : List Report) → replay ps (rs ++ qs) ≡ replay (replay ps rs) qs
replay-append ps [] qs = refl
replay-append ps (is_up p ∷ rs) qs = replay-append (ps ++ p ∷ []) rs qs
replay-append ps (is_down p ∷ rs) qs = replay-append (erase p ps) rs qs

-- The server holds exactly the connections that were reported open and not yet closed.
abbrev pub IsReported : TcpServerSingle → Type 0
IsReported s = pointers s.connections ≡ replay [] s.reports

on_event-IsReported :
    (local : ℕ) (e : Event) (s : TcpServerSingle) → IsReported s → IsReported (on_event local e s)
unfolding on_event handle_read on_new_connection new_connection close_connection
on_event-IsReported local (accepts stale answer) s h =
    pointers-append s.connections _
    ∙ ap (λ xs. xs ++ s.next_pointer ∷ []) h
    ∙ sym (replay-append [] s.reports (is_up s.next_pointer ∷ []))
on_event-IsReported local (closes p) s h =
    pointers-erase p s.connections
    ∙ ap (erase p) h
    ∙ sym (replay-append [] s.reports (is_down p ∷ []))

-- From a server whose set agrees with what its callback was told, as that of a new one does, over
-- any sequence of answers of `accept4` and closes: the set holds exactly the connections that were
-- reported as up and not as down since, in that order.
pub connections_lem :
    (local : ℕ) (events : List Event) (s : TcpServerSingle)
    → IsReported s
    → IsReported (on_events local events s)
unfolding on_events
connections_lem local [] s h = h
connections_lem local (e ∷ es) s h =
    connections_lem local es (on_event local e s) (on_event-IsReported local e s h)

abbrev pub AllPeers : ℕ → List ServerConnection → Type 0
AllPeers a [] = Unit {0}
AllPeers a (c ∷ cs) = (c.peer ≡ a) × AllPeers a cs

AllPeers-append :
    (a : ℕ) (cs ds : List ServerConnection) → AllPeers a cs → AllPeers a ds → AllPeers a (cs ++ ds)
AllPeers-append a [] ds h k = k
AllPeers-append a (c ∷ cs) ds h k = (h.0, AllPeers-append a cs ds h.1 k)

AllPeers-erase :
    (a p : ℕ) (cs : List ServerConnection) → AllPeers a cs → AllPeers a (erase_connection p cs)
unfolding erase_connection
AllPeers-erase a p [] h = tt
AllPeers-erase a p (c ∷ cs) h = elim (Bool-cases (c.pointer == p)) [
  | inl t ↦ rw t (AllPeers-erase a p cs h.1)
  | inr t ↦ rw t (h.0, AllPeers-erase a p cs h.1)
]

-- Every connection of a server has the server's own address as its peer, whoever connects, over
-- any sequence of answers of `accept4` and closes.
pub peers_lem :
    (local : ℕ) (events : List Event) (s : TcpServerSingle)
    → AllPeers local s.connections
    → AllPeers local (on_events local events s).connections
unfolding on_events on_event handle_read on_new_connection new_connection close_connection
peers_lem local [] s h = h
peers_lem local (accepts stale answer ∷ es) s h =
    peers_lem local es (on_event local (accepts stale answer) s)
      (AllPeers-append local s.connections _ h (refl, tt))
peers_lem local (closes p ∷ es) s h =
    peers_lem local es (on_event local (closes p) s) (AllPeers-erase local p s.connections h)
