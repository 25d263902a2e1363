-- ===== src/EPoller/Tests.antt =====
-- The theorems about registration on a concrete kernel.
use conex.Prelude.{◌≡◌, refl, true, some, List, [], ◌∷◌}
use conex.Channel.{
  Change, none_event, make_channel, enable_reading, enable_writing, disable_writing, disable_all,
}
use conex.EPoller.{change, changes}
use conex.EPoller.Table.{table_epoll, nothing}
use conex.EPoller.Registration.{InSync, AllTrue, changes-InSync, disable_all_absent}

abbrev history : List Change
history = enable_reading ∷ enable_writing ∷ disable_writing ∷ disable_all ∷ []

changes-InSync_example :
    let (answers, c', k') = changes table_epoll history (make_channel 5) nothing in
    AllTrue table_epoll answers × InSync table_epoll c' k' × (c'.fd ≡ 5)
changes-InSync_example = changes-InSync table_epoll history (make_channel 5) nothing refl

disable_all_absent_here :
    let (answer, c', k') = change table_epoll disable_all (make_channel 5) nothing in
    (c'.pooling ≡ true) × (k' 5 ≡ some none_event)
disable_all_absent_here = disable_all_absent table_epoll (make_channel 5) nothing refl refl
