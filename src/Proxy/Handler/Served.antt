-- ===== src/Proxy/Handler/Served.antt =====
-- A client that speaks SOCKS5 is served as a forwarded connection to its target.
use ssh_roundrobin.Prelude.{
  ℕ, ◌<◌, ◌≡◌, refl, ◌∙◌, ap, none, some, List, [], ◌∷◌, ◌++◌, append_assoc, append-nil, length,
  arith, pos, ℤ, ◌==◌, false, inl, inr,
}
use ssh_roundrobin.Text.{Text}
use ssh_roundrobin.Outcome.{ok, Result-cases}
use ssh_roundrobin.Env.{Env}
use ssh_roundrobin.Proxy.{Shared}
use ssh_roundrobin.Proxy.Tunnel.{Copier}
use ssh_roundrobin.Proxy.Dial.{Dialled, dial_target_with_retries}
use ssh_roundrobin.Proxy.Forward.{Ended, crashed, refused, forwarded, handle_connection, forward}
use ssh_roundrobin.Proxy.Forward.Reports.{forward_target}
use ssh_roundrobin.Proxy.Socks5.{ClientConn, reply_bytes, write, write_socks5_reply}
use ssh_roundrobin.Proxy.Socks5.Request.{
  Host, Sized, encode, host_text, read_full-append, read_socks5_target-encode,
}
use ssh_roundrobin.Proxy.Handler.{
  select_method, after_hello, negotiate, serve, after_request, after_negotiate,
  handle_socks5_connection, socks_reply_general, socks_reply_succeeded,
}

-- A hello of RFC 1928, section 3: the version, the number of methods, and the methods.
abbrev pub hello_bytes : List ℕ → List ℕ
hello_bytes methods = 5 ∷ length methods ∷ methods

-- The bytes written to the client once its target has been dialled.
abbrev pub answer : Ended → List ℕ
answer crashed = []
answer (refused e) = reply_bytes socks_reply_general
answer (forwarded r short) = reply_bytes socks_reply_succeeded

-- `c` after `bytes` have been written and only `rest` is left to read.
abbrev pub told : List ℕ → List ℕ → ClientConn → ClientConn
told bytes rest c = record c { input = rest; output = c.output ++ bytes }

negotiate-hello_bytes :
    (methods rest : List ℕ) (c : ClientConn)
    → 0 < length methods
    → c.fault ≡ none
    → c.input ≡ hello_bytes methods ++ rest
    → negotiate c ≡ (ok [], told (5 ∷ 0 ∷ []) rest c)
unfolding negotiate after_hello select_method write
negotiate-hello_bytes methods rest c some_method fine h =
    rw
      (
        read_full-append 2 (5 ∷ length methods ∷ []) (methods ++ rest) c h refl,
        counted,
        read_full-append (length methods) methods rest (record c { input = methods ++ rest }) refl
            refl,
        fine,
      )
      refl
  where
    counted : (length methods == 0) ≡ false
    counted = ground arith

module _ {W : Type 0} (env : Env W) (copier : Copier W) (others : Shared W → Shared W)
    (retries threshold ttl : ℤ) where
  pub serve-handle_connection :
      (host : Text) (port : ℤ) (c : ClientConn) (s : Shared W)
      → c.fault ≡ none
      → let (end, q) = handle_connection env copier others host port retries threshold ttl s in
        serve env copier others retries threshold ttl (forward_target host port) c s
        ≡ ((some end, told (answer end) c.input c), q)
  unfolding serve handle_connection write_socks5_reply write forward
  serve-handle_connection host port c s fine =
      let d : Dialled W =
        dial_target_with_retries env others (forward_target host port) retries threshold ttl s in
      elim (Result-cases d.result) [
        | inl h ↦ rw (h, serve, handle_connection, append-nil c.output) refl
        | inr (inl (e, h)) ↦ rw (h, serve, handle_connection, fine) refl
        | inr (inr ((conn, r), h)) ↦ rw (h, serve, handle_connection, fine) refl
      ]

  -- A client that offers at least one method and sends a CONNECT request of RFC 1928 is served as a
  -- connection forwarded to the host and port of its request: the pool, the tracker and the world end
  -- the same, and so does the connection. It is told that no authentication is needed, and then a
  -- success if its tunnel ran, a general failure if its dial failed, and nothing if the dial panicked.
  -- What it sent after the request is left to the tunnel. No write to it may fail.
  pub handle_socks5_connection-handle_connection :
      (methods rest : List ℕ) (rsv : ℕ) (h : Host) (port : ℕ) (c : ClientConn) (s : Shared W)
      → 0 < length methods
      → Sized h
      → c.fault ≡ none
      → c.input ≡ hello_bytes methods ++ (encode rsv h port ++ rest)
      → let (end, q) =
          handle_connection env copier others
            (host_text env h)
            (pos port)
            retries
            threshold
            ttl
            s in
        handle_socks5_connection env copier others retries threshold ttl c s
        ≡ ((some end, told ((5 ∷ 0 ∷ []) ++ answer end) rest c), q)
  unfolding handle_socks5_connection
  handle_socks5_connection-handle_connection methods rest rsv h port c s some_method sized fine e =
      ap (λ r. after_negotiate env copier others retries threshold ttl r s)
        (negotiate-hello_bytes methods (encode rsv h port ++ rest) c some_method fine e)
      ∙ ap (λ r. after_request env copier others retries threshold ttl r s)
          (read_socks5_target-encode env rsv h port rest
            (told (5 ∷ 0 ∷ []) (encode rsv h port ++ rest) c) sized refl)
      ∙ serve-handle_connection (host_text env h) (pos port) (told (5 ∷ 0 ∷ []) rest c) s fine
      ∙ ap (λ o. ((some ended.0, record c { input = rest; output = o }), ended.1))
          (append_assoc c.output (5 ∷ 0 ∷ []) (answer ended.0))
    where
      ended : Ended × Shared W
      ended =
          handle_connection env copier others (host_text env h) (pos port) retries threshold ttl s
