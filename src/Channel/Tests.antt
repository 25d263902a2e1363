-- ===== src/Channel/Tests.antt =====
-- A run of a channel, and the theorem about it at a concrete input.
use conex.Prelude.{◌≡◌, refl, true, [], ◌∷◌}
use conex.Channel.{Channel, none_event, make_channel, tie, set_revents, handle_events}
use conex.Channel.Dispatch.{
  recording, calls, handle_events_lem, called_close, called_write, called_read,
}

-- A peer that has hung up, with nothing left to read.
abbrev hung_up : Channel
hung_up = tie (
    set_revents (record none_event { epollhup = true; epollrdhup = true; epollout = true })
      (make_channel 5))

-- The close callback is followed by the read callback.
calls_of_hung_up : calls hung_up.revents 7 ≡ called_close ∷ called_read 7 ∷ called_write ∷ []
calls_of_hung_up = refl

handle_events_lem_example :
    (handle_events recording hung_up 7 []).1 ≡ called_close ∷ called_read 7 ∷ called_write ∷ []
handle_events_lem_example = handle_events_lem hung_up 7 []
