-- ===== src/TcpConnection/Flush.antt =====
-- How the output buffer drains while the channel is writable.
use conex.Prelude.{
  ℕ, ◌+◌, ◌-◌, ◌≤◌, min, ◌≡◌, refl, sym, ap, ◌∙◌, ◌≢◌, inl, inr, Bool, true, false, ◌||◌, Option,
  some, List, [], ◌∷◌, ◌++◌, arith, leb, ◌==◌, if◌then◌else◌, leb-false→lt, eq→==, leb→le, ==_iff,
  ==_false, Bool-cases, ◌>>=◌, length, drop, length-drop, drop-all, drop-drop, Bytes,
}
use conex.Buffer.{Transfer, readable_bytes, moved}
use conex.Buffer.Inv.{IsValid, contents, length-contents}
use conex.Buffer.Fd.{write_fd_lem}
use conex.Buffer.Retrieve.{retrieve_lem}
use conex.Channel.{Mask, Channel, change_events, disable_writing}
use conex.Channel.Dispatch.{change_events_lem}
use conex.TcpConnection.{
  ConnectionState, Effect, Connection, is_disconnected, Step, write_complete, shutdown_in_loop,
  output_done, handle_write, disconnecting, update, shutdown_write,
}

-- The events without EPOLLOUT.
abbrev pub without_write : Mask → Mask
without_write m = record m { epollout = false }

-- The outcome of one write event when the kernel takes n bytes.
pub record Flushed (n : ℕ) (c : Connection) (r : Option Step) : Type 0 where
  pub result : Connection
  pub effects : List Effect
  pub returns : r ≡ some (result, effects)
  pub valid : IsValid result.output_buffer
  pub holds : contents result.output_buffer ≡ drop n (contents c.output_buffer)
  pub state_is :
      result.state ≡ (if n == readable_bytes c.output_buffer then disconnecting else c.state)
  pub channel_is : result.channel ≡ (
      if n == readable_bytes c.output_buffer
      then record c.channel { events = without_write c.channel.events }
      else c.channel)
  pub effects_are : effects ≡ (
      if n == readable_bytes c.output_buffer
      then update disable_writing ∷ (write_complete true c ++ shutdown_write ∷ [])
      else [])

-- Nothing is left: the channel stops writing, and the loop shuts the socket's writing side.
pub output_done_lem :
    (c : Connection)
    → output_done c ≡ (
      record c { channel = change_events disable_writing c.channel; state = disconnecting },
      update disable_writing ∷ (write_complete true c ++ shutdown_write ∷ []),
    )
unfolding output_done shutdown_in_loop
output_done_lem c = rw ((change_events_lem disable_writing c.channel).1) refl

stops_writing :
    (c : Channel) → change_events disable_writing c ≡ record c { events = without_write c.events }
unfolding change_events
stops_writing c = ground arith

-- A write event of a connection that is not disconnected, when the kernel takes n of the bytes of
-- the output buffer: exactly these leave it, and the others stay in order. When they were all, the
-- channel loses its write event and keeps the others, the write complete callback is queued if it
-- is set, the state becomes disconnecting and the socket's writing side is shut down, also on a
-- connection that was connected. Otherwise the channel and the state are unchanged, and there are
-- no effects.
pub handle_write_lem :
    (kernel : List ℕ → Transfer ℕ) (n : ℕ) (c : Connection)
    → is_disconnected c ≡ false
    → IsValid c.output_buffer
    → kernel (contents c.output_buffer) ≡ moved n
    → n ≤ readable_bytes c.output_buffer
    → Flushed n c (handle_write kernel c)
unfolding handle_write
handle_write_lem kernel n c d v k h =
    let b = retrieve_lem n v h in
    let size = length-contents v in
    let left : readable_bytes b.result ≡ readable_bytes c.output_buffer - n = omega (
      arith,
      length-contents b.valid,
      ap length b.holds,
      length-drop n (contents c.output_buffer),
    ) in
    rw (d, write_fd_lem kernel v, k, b.returns)
      (elim (Bool-cases (readable_bytes b.result == 0)) [
        | inl e ↦
            let all : n ≡ readable_bytes c.output_buffer =
              omega (arith, (==_iff (readable_bytes b.result) 0).0 e) in
            rw e (record {
              result = record c {
                output_buffer = b.result;
                channel = change_events disable_writing c.channel;
                state = disconnecting;
              };
              effects = update disable_writing ∷ (write_complete true c ++ shutdown_write ∷ []);
              returns = ap some (output_done_lem (record c { output_buffer = b.result }));
              valid = b.valid;
              holds = b.holds;
              state_is = rw (eq→== _ _ all) refl;
              channel_is = rw (eq→== _ _ all) (stops_writing c.channel);
              effects_are = rw (eq→== _ _ all) refl;
            })
        | inr e ↦
            let some_left : n ≢ readable_bytes c.output_buffer = λ p. absurd (ground arith) in
            rw e (record {
              result = record c { output_buffer = b.result };
              effects = [];
              returns = refl;
              valid = b.valid;
              holds = b.holds;
              state_is = rw (==_false _ _ some_left) refl;
              channel_is = rw (==_false _ _ some_left) refl;
              effects_are = rw (==_false _ _ some_left) refl;
            })
      ])

-- A kernel that takes at most n bytes at once.
abbrev pub takes : ℕ → List ℕ → Transfer ℕ
takes n bytes = moved (min n (length bytes))

abbrev pub sum : List ℕ → ℕ
sum [] = 0
sum (n ∷ ns) = n + sum ns

-- Write events in turn, with the most that the kernel takes at each.
unfoldable pub drain : List ℕ → Connection → Option Connection
drain [] c = some c
drain (n ∷ ns) c = do (c', effects) ← handle_write (takes n) c; drain ns c'

-- Whether a write event comes that finds or leaves nothing of that many bytes.
abbrev pub is_flushed : List ℕ → ℕ → Bool
is_flushed [] left = false
is_flushed (n ∷ ns) left = leb left (n + sum ns)

-- A first write event, and the others.
is_flushed-cons :
    (n : ℕ) (ns : List ℕ) (left : ℕ)
    → is_flushed (n ∷ ns) left ≡ (leb left n || is_flushed ns (left - n))
is_flushed-cons n [] left = ground arith
is_flushed-cons n (m ∷ ms) left = ground arith

pub record Drained (ns : List ℕ) (c : Connection) (r : Option Connection) : Type 0 where
  pub result : Connection
  pub returns : r ≡ some result
  pub valid : IsValid result.output_buffer
  pub holds : contents result.output_buffer ≡ drop (sum ns) (contents c.output_buffer)
  pub state_is :
      result.state
      ≡ (if is_flushed ns (length (contents c.output_buffer)) then disconnecting else c.state)

drop-min : (n : ℕ) (xs : Bytes) → drop (min n (length xs)) xs ≡ drop n xs
drop-min n xs = elim (Bool-cases (leb n (length xs))) [
  | inl t ↦ ap (λ k. drop k xs) (ground (arith, leb→le _ _ t))
  | inr t ↦
      let h = leb-false→lt _ _ t in
      drop-all (min n (length xs)) xs (ground arith) ∙ sym (drop-all n xs (omega arith))
]

still_open :
    {n : ℕ} {c : Connection} {r : Option Step} (f : Flushed n c r)
    → is_disconnected c ≡ false
    → is_disconnected f.result ≡ false
still_open {n} {c} f d = elim (Bool-cases (n == readable_bytes c.output_buffer)) [
  | inl e ↦ rw (f.state_is, e) refl
  | inr e ↦ rw (f.state_is, e) d
]

-- The state after a first write event and others.
then_state :
    (n : ℕ) (ns : List ℕ) (left : ℕ) (s : ConnectionState)
    → (if is_flushed ns (left - n)
        then disconnecting
        else (if min n left == left then disconnecting else s))
      ≡ (if is_flushed (n ∷ ns) left then disconnecting else s)
then_state n ns left s = rw (is_flushed-cons n ns left) (elim (Bool-cases (leb left n)) [
  | inl t ↦ let e : (min n left == left) ≡ true = ground arith in rw (t, e) (ground arith)
  | inr t ↦ let e : (min n left == left) ≡ false = ground arith in rw (t, e) refl
])

-- Over a sequence of write events on a connection that is not disconnected, the bytes leave the
-- output buffer in order, as many as the kernel takes in all: once it has taken as many as there
-- were, the buffer is empty. The write event that finds or leaves nothing makes the state
-- disconnecting, and without one the state is unchanged.
pub drain_lem :
    (ns : List ℕ) (c : Connection)
    → is_disconnected c ≡ false
    → IsValid c.output_buffer
    → Drained ns c (drain ns c)
unfolding drain
drain_lem [] c d v = record { result = c; returns = refl; valid = v; holds = refl; state_is = refl }
drain_lem (n ∷ ns) c d v =
    let bytes = contents c.output_buffer in
    let f =
      handle_write_lem (takes n) (min n (length bytes)) c d v refl
        (ground (arith, length-contents v)) in
    let r = drain_lem ns f.result (still_open f d) f.valid in
    let size = length-contents v in
    let left : length (contents f.result.output_buffer) ≡ length bytes - n =
      omega (arith, ap length f.holds, length-drop (min n (length bytes)) bytes) in
    let same : length bytes ≡ readable_bytes c.output_buffer = omega (arith, size) in
    record {
      result = r.result;
      returns = ap (λ s. s >>= λ p. drain ns p.0) f.returns ∙ r.returns;
      valid = r.valid;
      holds =
          r.holds ∙ ap (drop (sum ns)) (f.holds ∙ drop-min n bytes) ∙ drop-drop (sum ns) n bytes;
      state_is =
          r.state_is ∙ rw (left, f.state_is, sym same) (then_state n ns (length bytes) c.state);
    }
