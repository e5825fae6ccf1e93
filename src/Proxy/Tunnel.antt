-- ===== src/Proxy/Tunnel.antt =====
-- `TunnelBidirectional` of internal/proxy/tunnel.go: two goroutines that each run `io.Copy`, and the wait
-- for both.
use ssh_roundrobin.Prelude.{ℕ, Bool, true, false, not, Option, none, some}
use ssh_roundrobin.Text.{Text, codes, text_eq}

-- What `io.Copy` ends with if it fails: `io.EOF` itself, a `*net.OpError` with the text of the error
-- in it, or another error.
pub data CopyError : Type 0 where
  end_of_file : CopyError
  op_error other_error : Text → CopyError

-- The result of one `io.Copy`: the bytes copied and the error.
pub record Copied : Type 0 where
  pub bytes : ℕ
  pub error : Option CopyError

-- `copy_both` runs `io.Copy` from the target's connection to the client's and from the client's to the
-- target's at the same time, until both have ended; the first result is of the first.
pub record Copier (W : Type 0) : Type 0 where
  pub copy_both : ℕ → W → (Copied × Copied) × W
  pub close_target : ℕ → W → W

unfoldable pub is_closed_or_eof : CopyError → Bool
is_closed_or_eof end_of_file = true
is_closed_or_eof (op_error text) = text_eq text (codes "use of closed network connection")
is_closed_or_eof (other_error text) = false

-- An error of a copy that is logged.
unfoldable pub reported : Copied → Bool
reported c = elim c.error [ none ↦ false | some e ↦ not (is_closed_or_eof e) ]

-- The bytes from the target to the client and from the client to the target. Errors are only logged.
unfoldable pub tunnel_bidirectional : {W : Type 0} → Copier W → ℕ → W → (ℕ × ℕ) × W
tunnel_bidirectional copier conn w =
    let ((right_to_left, left_to_right), w1) = copier.copy_both conn w in
    ((right_to_left.bytes, left_to_right.bytes), w1)
