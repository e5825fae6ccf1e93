-- ===== src/Proxy/Handler/Says.antt =====
-- What the readers of the handshake and of the request write to the client.
use ssh_roundrobin.Prelude.{
  ℕ, ◌≡◌, refl, sym, ◌∙◌, ap, subst, none, List, [], ◌∷◌, ◌++◌, append-nil, take, length, ◌==◌,
  Bool-cases, get_or, ◌⊎◌, inl, inr,
}
use ssh_roundrobin.Text.{Text, Error, codes}
use ssh_roundrobin.Outcome.{Result, ok, err}
use ssh_roundrobin.Env.{Env}
use ssh_roundrobin.Proxy.Socks5.{
  ClientConn, reply_bytes, write, write_socks5_reply, read_full, after_read, then_read, read_port,
  read_address, after_header, read_socks5_target, socks_reply_cmd_unsup, socks_reply_addr_unsup,
}
use ssh_roundrobin.Proxy.Handler.{select_method, after_hello, negotiate}

-- A reader that began with `o` written ends with a connection that takes writes: a reader that
-- succeeds has added `said`, and one that fails has added bytes of the kind `Refusal`.
pub record Says (o said : List ℕ) (Refusal : List ℕ → Type 0) (p : Result Text × ClientConn)
    : Type 0 where
  pub fine : p.1.fault ≡ none
  pub spoken :
      ((t : Text) × (p.0 ≡ ok t) × (p.1.output ≡ o ++ said))
      ⊎ ((e : Error) × (x : List ℕ) × (p.0 ≡ err e) × Refusal x × (p.1.output ≡ o ++ x))

-- The kinds of the two readers.
abbrev pub Silent : List ℕ → Type 0
Silent x = x ≡ []

abbrev pub Unsupported : List ℕ → Type 0
Unsupported x =
    (x ≡ []) ⊎ (x ≡ reply_bytes socks_reply_cmd_unsup) ⊎ (x ≡ reply_bytes socks_reply_addr_unsup)

-- Reading writes nothing.
read_full-quiet :
    (n : ℕ) (c : ClientConn)
    → ((read_full n c).1.output ≡ c.output) × ((read_full n c).1.fault ≡ c.fault)
unfolding read_full
read_full-quiet n c = elim (Bool-cases (length (take n c.input) == n)) [
  | inl h ↦ rw h (refl, refl)
  | inr h ↦ rw h (refl, refl)
]

then_read-Says :
    (n : ℕ) (what : Text) (next : List ℕ → ClientConn → Result Text × ClientConn) (c : ClientConn)
    (said : List ℕ) (Refusal : List ℕ → Type 0)
    → Refusal []
    → c.fault ≡ none
    → ((a : List ℕ) (d : ClientConn)
        → d.fault ≡ none
        → d.output ≡ c.output
        → Says c.output said Refusal (next a d))
    → Says c.output said Refusal (then_read n what next c)
then_read-Says n what next c said Refusal silence fine goes =
    go (read_full n c) ((read_full-quiet n c).0) ((read_full-quiet n c).1 ∙ fine)
  where
    go :
        (r : Result (List ℕ) × ClientConn)
        → r.1.output ≡ c.output
        → r.1.fault ≡ none
        → Says c.output said Refusal (after_read what next r)
    go (ok a, d) same still = goes a d still same
    go (err e, d) same still = record {
      fine = still;
      spoken = inr (what ++ e, [], refl, silence, same ∙ sym (append-nil c.output));
    }

write_lem :
    (bytes : List ℕ) (c : ClientConn)
    → c.fault ≡ none
    → write bytes c ≡ (none, record c { output = c.output ++ bytes })
unfolding write
write_lem bytes c fine =
    rw (write, fine) (ap (λ f. (none, record c { output = c.output ++ bytes; fault = f })) fine)

pub reply_written :
    (reply : ℕ) (o : List ℕ) (c : ClientConn)
    → c.fault ≡ none
    → c.output ≡ o
    → (write_socks5_reply reply c).output ≡ o ++ reply_bytes reply
unfolding write_socks5_reply
reply_written reply o c fine same =
    ap (λ w. w.1.output) (write_lem (reply_bytes reply) c fine)
    ∙ ap (λ o. o ++ reply_bytes reply) same

-- A refusal writes its reply and gives an error.
write_socks5_reply-Says :
    (reply : ℕ) (e : Error) (o : List ℕ) (c : ClientConn)
    → Unsupported (reply_bytes reply)
    → c.fault ≡ none
    → c.output ≡ o
    → Says o [] Unsupported (err e, write_socks5_reply reply c)
unfolding write_socks5_reply
write_socks5_reply-Says reply e o c kind fine same = record {
  fine = ap (λ w. w.1.fault) (write_lem (reply_bytes reply) c fine) ∙ fine;
  spoken = inr (e, reply_bytes reply, refl, kind, reply_written reply o c fine same);
}

read_port-Says :
    (host : Text) (o : List ℕ) (c : ClientConn)
    → c.fault ≡ none
    → c.output ≡ o
    → Says o [] Unsupported (read_port host c)
unfolding read_port
read_port-Says host o c fine same =
    subst (λ o. Says o [] Unsupported (read_port host c)) same
      (then_read-Says 2 (codes "failed to read destination port: ") _ c [] Unsupported (inl refl)
        fine
        λ port d still quiet. record {
          fine = still;
          spoken = inl (_, refl, quiet ∙ sym (append-nil c.output));
        })

module _ {W : Type 0} (env : Env W) where
  read_address-Says :
      (atyp : ℕ) (o : List ℕ) (c : ClientConn)
      → c.fault ≡ none
      → c.output ≡ o
      → Says o [] Unsupported (read_address env atyp c)
  unfolding read_address
  read_address-Says atyp o c fine same =
      subst (λ o. Says o [] Unsupported (read_address env atyp c)) same
        (elim (Bool-cases (atyp == 1)) [
          | inl x ↦ rw x (
              then_read-Says 4 (codes "failed to read ipv4 address: ") _ c [] Unsupported (inl refl)
                fine λ addr. read_port-Says (env.ip_string addr) c.output)
          | inr x ↦ elim (Bool-cases (atyp == 3)) [
            | inl y ↦
                rw (x, y)
                  (then_read-Says 1 (codes "failed to read domain length: ") _ c [] Unsupported
                    (inl refl) fine
                    λ len_buf d still quiet.
                      subst
                        (λ o. Says o [] Unsupported (
                          then_read (get_or len_buf 0 0) (codes "failed to read domain: ")
                            (λ domain. read_port (env.text_of_bytes domain)) d))
                        quiet
                        (then_read-Says (get_or len_buf 0 0) (codes "failed to read domain: ") _ d
                          [] Unsupported (inl refl) still
                          λ domain. read_port-Says (env.text_of_bytes domain) d.output))
            | inr y ↦ elim (Bool-cases (atyp == 4)) [
              | inl z ↦
                  rw (x, y, z)
                    (then_read-Says 16 (codes "failed to read ipv6 address: ") _ c [] Unsupported
                      (inl refl) fine λ addr. read_port-Says (env.ip_string addr) c.output)
              | inr z ↦
                  rw (x, y, z)
                    (write_socks5_reply-Says socks_reply_addr_unsup _ c.output c (inr (inr refl))
                      fine refl)
            ]
          ]
        ])

  after_header-Says :
      (header o : List ℕ) (c : ClientConn)
      → c.fault ≡ none
      → c.output ≡ o
      → Says o [] Unsupported (after_header env header c)
  unfolding after_header
  after_header-Says header o c fine same = elim (Bool-cases (get_or header 0 0 == 5)) [
    | inr v ↦
        rw v record { fine = fine; spoken = inr (_, [], refl, inl refl, same ∙ sym (append-nil o)) }
    | inl v ↦ elim (Bool-cases (get_or header 1 0 == 1)) [
      | inl u ↦ rw (v, u) (read_address-Says (get_or header 3 0) o c fine same)
      | inr u ↦
          rw (v, u) (write_socks5_reply-Says socks_reply_cmd_unsup _ o c (inr (inl refl)) fine same)
    ]
  ]

  pub read_socks5_target-Says :
      (c : ClientConn) → c.fault ≡ none → Says c.output [] Unsupported (read_socks5_target env c)
  unfolding read_socks5_target
  read_socks5_target-Says c fine =
      then_read-Says 4 (codes "failed to read socks5 request header: ") _ c [] Unsupported
        (inl refl) fine λ header. after_header-Says header c.output

select_method-Says :
    (methods o : List ℕ) (c : ClientConn)
    → c.fault ≡ none
    → c.output ≡ o
    → Says o (5 ∷ 0 ∷ []) Silent (select_method methods c)
unfolding select_method
select_method-Says methods o c fine same =
    rw (select_method, write_lem (5 ∷ 0 ∷ []) c fine)
      record {
        fine = ap (λ w. w.1.fault) (write_lem (5 ∷ 0 ∷ []) c fine) ∙ fine;
        spoken = inl (
          [],
          refl,
          ap (λ w. w.1.output) (write_lem (5 ∷ 0 ∷ []) c fine) ∙ ap (λ o. o ++ 5 ∷ 0 ∷ []) same,
        );
      }

pub negotiate-Says :
    (c : ClientConn) → c.fault ≡ none → Says c.output (5 ∷ 0 ∷ []) Silent (negotiate c)
unfolding negotiate after_hello
negotiate-Says c fine =
    then_read-Says 2 (codes "SOCKS5 handshake read failed: ") _ c (5 ∷ 0 ∷ []) Silent refl fine
      λ hello d still quiet. elim (Bool-cases (get_or hello 0 0 == 5)) [
        | inr v ↦ rw v record {
          fine = still;
          spoken = inr (_, [], refl, refl, quiet ∙ sym (append-nil c.output));
        }
        | inl v ↦ elim (Bool-cases (get_or hello 1 0 == 0)) [
          | inl u ↦
              rw (v, u)
                record {
                  fine = still;
                  spoken = inr (_, [], refl, refl, quiet ∙ sym (append-nil c.output));
                }
          | inr u ↦
              rw (v, u)
                (subst
                  (λ o. Says o (5 ∷ 0 ∷ []) Silent (
                    then_read (get_or hello 1 0) (codes "SOCKS5 methods read failed: ")
                      select_method d))
                  quiet
                  (then_read-Says (get_or hello 1 0) (codes "SOCKS5 methods read failed: ") _ d
                    (5 ∷ 0 ∷ []) Silent refl still λ methods. select_method-Says methods d.output))
        ]
      ]
