-- ===== src/TcpConnection/Deliver.antt =====
-- A message from `send` to the last of its bytes.
use conex.Prelude.{
  ℕ, ◌+◌, ◌≤◌, ◌≡◌, refl, ap, ◌∙◌, false, some, List, ◌>>=◌, length, drop, drop-drop, Bytes,
}
use conex.Memory.{max_size}
use conex.Buffer.{Transfer, moved}
use conex.Buffer.Inv.{IsValid, contents}
use conex.TcpConnection.{Connection, is_disconnected, send_in_loop, connected}
use conex.TcpConnection.Send.{IsIdle, send_in_loop_lem}
use conex.TcpConnection.Flush.{sum, drain, drain_lem}

connected_is_open : (c : Connection) → c.state ≡ connected → is_disconnected c ≡ false
connected_is_open c e = rw e refl

-- A message that is sent on an idle connection, of which the kernel takes n bytes at once and then
-- some at each of a sequence of write events: nothing faults, and what is left in the output buffer
-- is the message without as many bytes at its front as the kernel has taken in all. So the whole
-- message is out, in order, once the kernel has taken as many bytes as it has.
pub deliver_lem :
    (write : Bytes → Transfer ℕ) (bytes : Bytes) (n : ℕ) (ns : List ℕ) (c : Connection)
    → IsIdle c
    → write bytes ≡ moved n
    → n ≤ length bytes
    → c.output_buffer.writer_index + length bytes ≤ max_size
    → (result : Connection) × ((do (c', effects) ← send_in_loop write bytes c; drain ns c')
        ≡ some result)
      × IsValid result.output_buffer
      × (contents result.output_buffer ≡ drop (n + sum ns) bytes)
deliver_lem write bytes n ns c i w h room =
    let b = send_in_loop_lem write bytes n c i w h room in
    let still_open : is_disconnected b.result ≡ false =
      connected_is_open b.result (b.state_kept ∙ i.is_open) in
    let d = drain_lem ns b.result still_open b.valid in
    (
      d.result,
      ap (λ r. r >>= λ s. drain ns s.0) b.returns ∙ d.returns,
      d.valid,
      d.holds ∙ ap (drop (sum ns)) b.holds ∙ drop-drop (sum ns) n bytes,
    )
