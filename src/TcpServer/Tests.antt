-- ===== src/TcpServer/Tests.antt =====
-- The theorems about servers of two loops.
use conex.Prelude.{◌≡◌, refl, ◌≢◌, inl, true, false, List, [], ◌∷◌, arith}
use conex.TcpServer.{
  TcpServer, Action, no_worker, make_server, set_slot, set_worker, set_thread_num, start,
  start_in_loop, spawn, test_slot, register, act, and_then, run, registered, finished, up, gone,
  quitting, next, sets_thread_num, starts_server, starts_in_loop, spawns, tests_slot, quits_next,
  registers, serves, enters_loop,
}
use conex.TcpServer.Started.{Started, OnNext, IsValid, start_lem}
use conex.TcpServer.Stopped.{never_joined_lem}

-- The server is started twice, and its second loop is on its way.
abbrev start_up : List Action
start_up =
    sets_thread_num 2
    ∷ starts_server
    ∷ starts_server
    ∷ starts_in_loop
    ∷ spawns
    ∷ tests_slot
    ∷ registers 1
    ∷ tests_slot
    ∷ spawns
    ∷ []

start_lem_example : OnNext (λ s. s.base ≡ up → Started s) (run start_up make_server)
start_lem_example = start_lem start_up

-- So it is, with one thread.
comes_up :
    and_then
      (run start_up make_server)
      (λ s. next (record s { slots = λ i. false; workers = λ i. no_worker }))
    ≡ next (record make_server {
      base = up;
      started = true;
      thread_num = 2;
      slot_count = 2;
      threads = 1;
    })
unfolding run act set_thread_num start start_in_loop spawn test_slot register
comes_up = refl

-- The destructor has come to the slot of a thread that has just made its loop known.
abbrev closing : TcpServer
closing = record make_server {
  base = quitting 1;
  started = true;
  thread_num = 2;
  slot_count = 2;
  threads = 1;
  slots = set_slot 1 true (λ i. false);
  workers = set_worker 1 (record { place = registered; quit = false }) (λ i. no_worker);
}

closing-IsValid : IsValid closing
closing-IsValid = (ground arith, λ i. ground arith)

waits_for_good :
    OnNext
      (λ s'. (s'.base ≢ gone) × ((s'.workers 1).place ≢ finished))
      (run (quits_next ∷ quits_next ∷ serves 1 ∷ enters_loop 1 ∷ []) closing)
waits_for_good =
    never_joined_lem 1 (quits_next ∷ serves 1 ∷ enters_loop 1 ∷ []) closing closing-IsValid refl
      (omega arith) refl (inl refl)
