-- ===== src/Proxy/Handler/Answers.antt =====
-- What a SOCKS5 client is told, whatever it sends.
use ssh_roundrobin.Prelude.{
  ℕ, Bool, ◌≡◌, refl, sym, ◌∙◌, ap, subst, Option, none, some, List, [], ◌∷◌, ◌++◌, append-nil,
  append_assoc, arith, ◌⊎◌, inl, inr, ℤ,
}
use ssh_roundrobin.Text.{Text, Error}
use ssh_roundrobin.Outcome.{Result, ok, err, Outcome, returns, panics, Result-cases}
use ssh_roundrobin.Env.{Env}
use ssh_roundrobin.Proxy.{Shared}
use ssh_roundrobin.Proxy.Tunnel.{Copier}
use ssh_roundrobin.Proxy.Dial.{Dialled, dial_target_with_retries}
use ssh_roundrobin.Proxy.Forward.{Ended, crashed, refused, forwarded, forward}
use ssh_roundrobin.Proxy.Socks5.{
  ClientConn, reply_bytes, read_socks5_target, socks_reply_cmd_unsup, socks_reply_addr_unsup,
}
use ssh_roundrobin.Proxy.Handler.{
  negotiate, serve, after_request, after_negotiate, handle_socks5_connection, socks_reply_general,
  socks_reply_succeeded,
}
use ssh_roundrobin.Proxy.Handler.Served.{answer}
use ssh_roundrobin.Proxy.Handler.Says.{
  Says, Silent, Unsupported, reply_written, read_socks5_target-Says, negotiate-Says,
}

-- The bytes that tell a client that no target is dialled for it: the handshake failed, or the request
-- was cut off, or it asked for a command or a kind of address that is not served.
pub data TurnedAway : List ℕ → Type 0 where
  unheard : TurnedAway []
  unread : TurnedAway (5 ∷ 0 ∷ [])
  cmd_unsupported : TurnedAway (5 ∷ 0 ∷ reply_bytes socks_reply_cmd_unsup)
  addr_unsupported : TurnedAway (5 ∷ 0 ∷ reply_bytes socks_reply_addr_unsup)

-- How a connection was served says how its dial ended.
pub data DialEnded : Outcome (Result (ℕ × ℕ)) → Ended → Type 0 where
  dial_panics : DialEnded panics crashed
  dial_fails : {e : Error} → DialEnded (returns (err e)) (refused e)
  dial_succeeds :
      {conn r : ℕ} {short : Bool} → DialEnded (returns (ok (conn, r))) (forwarded r short)

refusal-TurnedAway : {x : List ℕ} → Unsupported x → TurnedAway (5 ∷ 0 ∷ x)
refusal-TurnedAway (inl h) = subst (λ x. TurnedAway (5 ∷ 0 ∷ x)) (sym h) unread
refusal-TurnedAway (inr (inl h)) = subst (λ x. TurnedAway (5 ∷ 0 ∷ x)) (sym h) cmd_unsupported
refusal-TurnedAway (inr (inr h)) = subst (λ x. TurnedAway (5 ∷ 0 ∷ x)) (sym h) addr_unsupported

module _ {W : Type 0} (env : Env W) (copier : Copier W) (others : Shared W → Shared W)
    (retries threshold ttl : ℤ) where
  serve-DialEnded :
      (t : Text) (o : List ℕ) (c : ClientConn) (s : Shared W)
      → c.fault ≡ none
      → c.output ≡ o
      → let p = serve env copier others retries threshold ttl t c s in
        (e : Ended) × (p.0.0 ≡ some e)
        × (p.0.1.output ≡ o ++ answer e)
        × DialEnded (dial_target_with_retries env others t retries threshold ttl s).result e
  unfolding serve forward
  serve-DialEnded t o c s fine same = elim (Result-cases d.result) [
    | inl h ↦ rw (h, serve) (crashed, refl, same ∙ sym (append-nil o), dial_panics)
    | inr (inl (e, h)) ↦
        rw (h, serve) (refused e, refl, reply_written socks_reply_general o c fine same, dial_fails)
    | inr (inr ((conn, r), h)) ↦
        rw (h, serve)
          (forwarded r _, refl, reply_written socks_reply_succeeded o c fine same, dial_succeeds)
  ]
    where
      d : Dialled W
      d = dial_target_with_retries env others t retries threshold ttl s

  -- What the handler did with the client of `c`, when it ended with `p`: it turned the client away and
  -- left all else as it was, or it served the target of the request.
  abbrev pub Told : ClientConn → Shared W → (Option Ended × ClientConn) × Shared W → Type 0
  Told c s p =
      ((p.0.0 ≡ none) × (p.1 ≡ s) × (x : List ℕ) × TurnedAway x × (p.0.1.output ≡ c.output ++ x))
      ⊎ ((hello : Text) × (target : Text) × (a : ClientConn) × (b : ClientConn) × (e : Ended)
          × (negotiate c ≡ (ok hello, a))
          × (read_socks5_target env a ≡ (ok target, b))
          × (p.0.0 ≡ some e)
          × DialEnded (dial_target_with_retries env others target retries threshold ttl s).result e
          × (p.0.1.output ≡ c.output ++ 5 ∷ 0 ∷ answer e))

  after_request-Told :
      (c a : ClientConn) (s : Shared W) (hello : Text) (m : Result Text × ClientConn)
      → negotiate c ≡ (ok hello, a)
      → read_socks5_target env a ≡ m
      → a.output ≡ c.output ++ 5 ∷ 0 ∷ []
      → Says a.output [] Unsupported m
      → Told c s (after_request env copier others retries threshold ttl m s)
  after_request-Told c a s hello (ok t, b) n r o says =
      let said : b.output ≡ a.output = elim says.spoken [
        | inl (u, h, out) ↦ out ∙ append-nil a.output
        | inr (f, x, h, kind, out) ↦ absurd (ground (arith, h))
      ] in
      let (e, ended, out, dial) =
        serve-DialEnded t (c.output ++ 5 ∷ 0 ∷ []) b s says.fine (said ∙ o) in
      inr
        (hello, t, a, b, e, n, r, ended, dial, out ∙ append_assoc c.output (5 ∷ 0 ∷ []) (answer e))
  after_request-Told c a s hello (err e, b) n r o says = elim says.spoken [
    | inl (t, h, rest) ↦ absurd (ground (arith, h))
    | inr (f, x, h, kind, out) ↦ inl (
      refl,
      refl,
      5 ∷ 0 ∷ x,
      refusal-TurnedAway kind,
      out ∙ ap (λ o. o ++ x) o ∙ append_assoc c.output (5 ∷ 0 ∷ []) x,
    )
  ]

  after_negotiate-Told :
      (c : ClientConn) (s : Shared W) (n : Result Text × ClientConn)
      → negotiate c ≡ n
      → Says c.output (5 ∷ 0 ∷ []) Silent n
      → Told c s (after_negotiate env copier others retries threshold ttl n s)
  after_negotiate-Told c s (ok hello, a) n says = elim says.spoken [
    | inl (t, h, out) ↦
        after_request-Told c a s hello (read_socks5_target env a) n refl out
          (read_socks5_target-Says env a says.fine)
    | inr (f, x, h, kind, out) ↦ absurd (ground (arith, h))
  ]
  after_negotiate-Told c s (err e, a) n says = elim says.spoken [
    | inl (t, h, rest) ↦ absurd (ground (arith, h))
    | inr (f, x, h, kind, out) ↦ inl (refl, refl, [], unheard, out ∙ ap (λ x. c.output ++ x) kind)
  ]

  -- Whatever a client sends, if no write to it fails, it is told one of these. It is turned away without
  -- a dial, and then the pool, the tracker and the world are as before: told nothing where its
  -- handshake fails, the method alone where its request is not read, and the method with the reply 7 or
  -- 8 where the command or the kind of address is not served. Or the handshake and the request were
  -- read, the target was dialled as it stood in the request, and the client is told the method and the
  -- outcome of the dial: a success only of a dial that gave a connection, a general failure of one that
  -- gave an error, and nothing more of one that panicked.
  pub handle_socks5_connection-Told :
      (c : ClientConn) (s : Shared W)
      → c.fault ≡ none
      → Told c s (handle_socks5_connection env copier others retries threshold ttl c s)
  unfolding handle_socks5_connection
  handle_socks5_connection-Told c s fine =
      after_negotiate-Told c s (negotiate c) refl (negotiate-Says c fine)
