-- ===== src/TcpServer/Stopped.antt =====
-- What the destructor comes to.
use conex.Prelude.{ℕ, ◌≤◌, ◌<◌, ◌≡◌, ◌≢◌, ◌⊎◌, Bool, true, false, List, ◌∷◌, arith}
use conex.TcpServer.{
  Place, Base, TcpServer, Outcome, Action, set_thread_num, start, start_in_loop, spawn, test_slot,
  register, serve, enter_loop, leave_loop, destroy, quit_next, join_next, act, run, registered,
  serving, looping, finished, gone, quitting, joining, blocked, fault, next, sets_thread_num,
  starts_server, starts_in_loop, spawns, tests_slot, destroys, quits_next, joins_next, registers,
  serves, enters_loop, leaves_loop,
}
use conex.TcpServer.Started.{
  IsAt, IsBase, OnNext, index_of, IsValid, act-IsValid, and_then-OnNext, run-OnNext,
}

-- The destructor has called `quit` for an index, and has not joined its thread.
abbrev pub Passed : ℕ → Base → Type 0
Passed j (quitting i) = j < i
Passed j (joining i) = i < j
Passed j _ = ⊥

-- The thread is on its way into `loop`, or in it with nothing to end it.
abbrev pub GoesOn : Place → Bool → Type 0
GoesOn registered quit = Unit {0}
GoesOn serving quit = Unit {0}
GoesOn looping quit = quit ≡ false
GoesOn _ quit = ⊥

record IsStuck (j : ℕ) (s : TcpServer) : Type 0 where
  pub passed : Passed j s.base
  pub goes_on : GoesOn (s.workers j).place (s.workers j).quit
  pub is_thread : (0 < j) × (j ≤ s.threads)

act-IsStuck :
    (j : ℕ) (a : Action) (s : TcpServer)
    → IsBase s
    → IsAt s (index_of a s)
    → IsStuck j s
    → OnNext (IsStuck j) (act a s)
unfolding act set_thread_num start start_in_loop spawn test_slot register serve enter_loop
    leave_loop destroy quit_next join_next
act-IsStuck j (sets_thread_num n) s b w v = ground arith
act-IsStuck j starts_server s b w v = ground arith
act-IsStuck j starts_in_loop s b w v = ground arith
act-IsStuck j spawns s b w v = ground arith
act-IsStuck j tests_slot s b w v = ground arith
act-IsStuck j destroys s b w v = ground arith
act-IsStuck j quits_next s b w v = ground arith
act-IsStuck j joins_next s b w v = ground arith
act-IsStuck j (registers i) s b w v = ground arith
act-IsStuck j (serves i) s b w v = ground arith
act-IsStuck j (enters_loop i) s b w v = ground arith
act-IsStuck j (leaves_loop i) s b w v = ground arith

passed_now :
    (j : ℕ) (s : TcpServer)
    → s.base ≡ quitting j
    → (0 < j) × (j ≤ s.threads) × (j < s.slot_count)
    → s.slots j ≡ true
    → ((s.workers j).place ≡ registered) ⊎ ((s.workers j).place ≡ serving)
    → OnNext (IsStuck j) (act quits_next s)
unfolding act quit_next
passed_now j s e h set p = ground arith

abbrev ValidStuck : ℕ → TcpServer → Type 0
ValidStuck j s = IsValid s × IsStuck j s

joined : (j : ℕ) (o : Outcome) → OnNext IsValid o → OnNext (IsStuck j) o → OnNext (ValidStuck j) o
joined j blocked h k = tt
joined j fault h k = h
joined j (next s) h k = (h, k)

act-ValidStuck :
    (j : ℕ) (a : Action) (s : TcpServer) → ValidStuck j s → OnNext (ValidStuck j) (act a s)
act-ValidStuck j a s (valid, v) =
    joined j (act a s) (act-IsValid a s valid)
      (act-IsStuck j a s valid.0 (valid.1 (index_of a s)) v)

-- When the destructor calls `quit` for a thread that has made its loop known and is not in `loop`
-- yet, the destructor does not return: `loop` forgets the call, nobody calls it again, and whatever
-- the threads do, that one does not end and is not joined.
pub never_joined_lem :
    (j : ℕ) (actions : List Action) (s : TcpServer)
    → IsValid s
    → s.base ≡ quitting j
    → (0 < j) × (j ≤ s.threads) × (j < s.slot_count)
    → s.slots j ≡ true
    → ((s.workers j).place ≡ registered) ⊎ ((s.workers j).place ≡ serving)
    → OnNext
        (λ s'. (s'.base ≢ gone) × ((s'.workers j).place ≢ finished))
        (run (quits_next ∷ actions) s)
unfolding run
never_joined_lem j actions s valid e h set p =
    and_then-OnNext (ValidStuck j) _ (act quits_next s) (run actions)
      (joined j (act quits_next s) (act-IsValid quits_next s valid) (passed_now j s e h set p))
      (λ s' v. weaken (run actions s') (run-OnNext (ValidStuck j) (act-ValidStuck j) actions s' v))
  where
    weaken :
        (o : Outcome)
        → OnNext (ValidStuck j) o
        → OnNext (λ s'. (s'.base ≢ gone) × ((s'.workers j).place ≢ finished)) o
    weaken blocked h = tt
    weaken fault h = h
    weaken (next s') (h, v) = (ground arith, ground arith)
