-- ===== src/Daemon/Pid.antt =====
-- The PID file written and read back.
use ssh_roundrobin.Prelude.{
  ℤ, ◌≤◌, ◌≡◌, false, none, [], ◌∷◌, ◌++◌, arith, All, Option-cases, inl, inr,
}
use ssh_roundrobin.Text.{Text, codes, is_empty, is_space, trim_space-newline}
use ssh_roundrobin.Text.Decimal.{itoa, atoi-itoa, itoa-All, Int64}
use ssh_roundrobin.Outcome.{ok}
use ssh_roundrobin.Env.{Env}
use ssh_roundrobin.Os.{Os}
use ssh_roundrobin.Daemon.{write_pid, read_pid}

no_space : (s : Text) → All (λ c. (b'-' ≤ c) × (c ≤ b'9')) s → All (λ c. is_space c ≡ false) s
unfolding is_space
no_space [] h = tt
no_space (c ∷ s) (h, hs) = (ground arith, no_space s hs)

-- A file that holds a PID in decimal and a line end is read as the PID, which fits an `int`.
pub read_pid-itoa :
    {W : Type 0} (env : Env W) (os : Os W) (file : Text) (pid : ℤ) (v : W)
    → (env.read_file file v).0 ≡ ok (itoa pid ++ codes "\n")
    → Int64 pid
    → (read_pid env os file v).0 ≡ ok pid
unfolding read_pid
read_pid-itoa env os file pid v stored fits = ground (
  arith,
  stored,
  atoi-itoa env.quote pid fits,
  trim_space-newline (itoa pid) (no_space (itoa pid) (itoa-All pid)),
)

-- A PID that was written without an error is read back. A file written without an error holds what
-- was written, and a PID fits an `int`.
pub read_pid-write_pid :
    {W : Type 0} (env : Env W) (os : Os W) (file : Text) (w v : W)
    → ((path content : Text) (a b : W)
        → os.write_file path content a ≡ (none, b)
        → (env.read_file path b).0 ≡ ok content)
    → is_empty file ≡ false
    → Int64 (os.getpid w)
    → write_pid os file w ≡ (none, v)
    → (read_pid env os file v).0 ≡ ok (os.getpid w)
unfolding write_pid
read_pid-write_pid env os file w v back named fits h =
    read_pid-itoa env os file (os.getpid w) v (back file text w v written) fits
  where
    text : Text
    text = itoa (os.getpid w) ++ codes "\n"

    written : os.write_file file text w ≡ (none, v)
    written =
        let e = Option-cases (os.write_file file text w).0 in
        elim e [
          | inl n ↦ ground (arith, h, named, n)
          | inr (x, n) ↦ absurd (ground (arith, h, named, n))
        ]
