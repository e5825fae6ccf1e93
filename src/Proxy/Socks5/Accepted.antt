-- ===== src/Proxy/Socks5/Accepted.antt =====
-- The requests that the reader accepts are those of RFC 1928.
use ssh_roundrobin.Prelude.{
  ℕ, ◌+◌, ◌*◌, ◌/◌, ◌%◌, ◌<◌, ◌≡◌, ◌≢◌, refl, sym, ◌∙◌, ap, subst, ◌⊎◌, inl, inr, List, [], ◌∷◌,
  ◌++◌, append_assoc, take, drop, take-drop, Bool-cases, length, get_or, arith, if◌then◌else◌, ◌==◌,
  pos, All,
}
use ssh_roundrobin.Text.{Text, Error, codes, text_eq}
use ssh_roundrobin.Text.Decimal.{itoa}
use ssh_roundrobin.Outcome.{Result, ok, err}
use ssh_roundrobin.Env.{Env}
use ssh_roundrobin.Proxy.Socks5.{
  ClientConn, read_full, after_read, then_read, read_port, read_address, after_header,
  read_socks5_target, eof,
}
use ssh_roundrobin.Proxy.Socks5.Request.{
  Host, ipv4, name, ipv6, Sized, address_bytes, encode, host_text,
}

-- What a successful read of `n` bytes says.
read_full-ok :
    (n : ℕ) (c : ClientConn)
    → ((a : List ℕ) × (b : List ℕ) × (read_full n c ≡ (ok a, record c { input = b }))
        × (length a ≡ n)
        × (c.input ≡ a ++ b))
      ⊎ ((e : Error) × ((read_full n c).0 ≡ err e))
unfolding read_full
read_full-ok n c = elim (Bool-cases (length (take n c.input) == n)) [
  | inl h ↦ inl (take n c.input, drop n c.input, rw h refl, ground arith, sym (take-drop n c.input))
  | inr h ↦ inr (
    if length (take n c.input) == 0
        then c.end
        else if text_eq c.end eof
        then codes "unexpected EOF"
        else c.end,
    rw h refl,
  )
]

-- A reader that succeeds has read its bytes and gone on.
then_read-ok :
    {A : Type 0} (n : ℕ) (what : Text) (next : List ℕ → ClientConn → Result A × ClientConn)
    (c d : ClientConn) (t : A)
    → then_read n what next c ≡ (ok t, d)
    → (a : List ℕ) × (b : List ℕ) × (length a ≡ n)
      × (c.input ≡ a ++ b)
      × (next a (record c { input = b }) ≡ (ok t, d))
then_read-ok n what next c d t h = elim (read_full-ok n c) [
  | inl (a, b, x, l, i) ↦ (a, b, l, i, ap (after_read what next) (sym x) ∙ h)
  | inr (e, x) ↦ absurd (after_read-err (read_full n c) e x (ap (λ p. p.0) h))
]
  where
    after_read-err :
        (r : Result (List ℕ) × ClientConn) (e : Error)
        → r.0 ≡ err e
        → (after_read what next r).0 ≢ ok t
    after_read-err (ok a, c) e h = ground arith
    after_read-err (err x, c) e h = λ k. ground arith

refused : {e : Error} {t : Text} → ◌≢◌ {A = Result Text} (err e) (ok t)
refused h = ground arith

one : (a : List ℕ) → length a ≡ 1 → (x : ℕ) × (a ≡ x ∷ [])
one [] h = absurd (omega (arith, h))
one (x ∷ []) h = (x, refl)
one (x ∷ y ∷ a) h = absurd (omega (arith, h))

four :
    (a : List ℕ) → length a ≡ 4 → (x : ℕ) × (y : ℕ) × (z : ℕ) × (w : ℕ) × (a ≡ x ∷ y ∷ z ∷ w ∷ [])
four [] h = absurd (omega (arith, h))
four (x ∷ []) h = absurd (omega (arith, h))
four (x ∷ y ∷ []) h = absurd (omega (arith, h))
four (x ∷ y ∷ z ∷ []) h = absurd (omega (arith, h))
four (x ∷ y ∷ z ∷ w ∷ []) h = (x, y, z, w, refl)
four (x ∷ y ∷ z ∷ w ∷ v ∷ a) h = absurd (omega (arith, h))

two : (a : List ℕ) → length a ≡ 2 → (x : ℕ) × (y : ℕ) × (a ≡ x ∷ y ∷ [])
two [] h = absurd (omega (arith, h))
two (x ∷ []) h = absurd (omega (arith, h))
two (x ∷ y ∷ []) h = (x, y, refl)
two (x ∷ y ∷ z ∷ a) h = absurd (omega (arith, h))

module _ {W : Type 0} (env : Env W) where
  -- The result `t` of a reader of the rest of a request, from a host on.
  abbrev Ends : Text → Text → ClientConn → ClientConn → Type 0
  Ends host t c d =
      (port : ℕ) × (port < 65_536)
      × (t ≡ host ++ (codes ":" ++ itoa (pos port)))
      × (c.input ≡ (port / 256) ∷ (port % 256) ∷ d.input)
      × (d.output ≡ c.output)

  read_port-Ends :
      (host t : Text) (c d : ClientConn)
      → All (λ b. b < 256) c.input
      → read_port host c ≡ (ok t, d)
      → Ends host t c d
  unfolding read_port
  read_port-Ends host t c d small h =
      let (a, b, l, i, k) = then_read-ok 2 (codes "failed to read destination port: ") _ c d t h in
      let (x, y, e) = two a l in
      let s : All (λ b. b < 256) (x ∷ y ∷ b) =
        subst (All (λ b. b < 256)) (i ∙ ap (λ l. l ++ b) e) small in
      let hi : (x * 256 + y) / 256 ≡ x = omega (arith, s.1.0) in
      let lo : (x * 256 + y) % 256 ≡ y = omega (arith, s.1.0) in
      (
        x * 256 + y,
        omega (arith, s.0, s.1.0),
        ground (arith, k, e),
        i ∙ ap (λ l. l ++ b) e ∙ ground (arith, hi, lo, ap (λ p. p.1.input) k),
        ground (arith, k),
      )

  -- The bytes from `c` to `d` are a request for the target `t`, and nothing was written.
  pub record Accepted (c d : ClientConn) (t : Text) : Type 0 where
    pub rsv : ℕ
    pub host : Host
    pub port : ℕ
    pub sized : Sized host
    pub port_fits : port < 65_536
    pub bytes : c.input ≡ encode rsv host port ++ d.input
    pub text : t ≡ host_text env host ++ (codes ":" ++ itoa (pos port))
    pub silent : d.output ≡ c.output

  -- The same of the bytes after the address type.
  record Addressed (atyp : ℕ) (c d : ClientConn) (t : Text) : Type 0 where
    pub host : Host
    pub port : ℕ
    pub sized : Sized host
    pub port_fits : port < 65_536
    pub bytes : atyp ∷ c.input ≡ address_bytes host ++ (port / 256) ∷ (port % 256) ∷ d.input
    pub text : t ≡ host_text env host ++ (codes ":" ++ itoa (pos port))
    pub silent : d.output ≡ c.output

  All-rest : (a b l : List ℕ) → l ≡ a ++ b → All (λ x. x < 256) l → All (λ x. x < 256) b
  All-rest [] b l e h = subst (All (λ x. x < 256)) e h
  All-rest (x ∷ a) b [] e h = absurd (ground arith)
  All-rest (x ∷ a) b (y ∷ l) e h = All-rest a b l (ground arith) h.1

  after_host :
      (atyp : ℕ) (h : Host) (a b : List ℕ) (t : Text) (c d : ClientConn)
      → Sized h
      → atyp ∷ a ≡ address_bytes h
      → c.input ≡ a ++ b
      → All (λ x. x < 256) c.input
      → read_port (host_text env h) (record c { input = b }) ≡ (ok t, d)
      → Addressed atyp c d t
  after_host atyp h a b t c d sized e i small k =
      let (port, fits, text, rest, quiet) =
        read_port-Ends (host_text env h) t (record c { input = b }) d (All-rest a b c.input i small)
          k in
      record {
        host = h;
        port = port;
        sized = sized;
        port_fits = fits;
        bytes =
            ap (λ l. atyp ∷ l) (i ∙ ap (λ l. a ++ l) rest)
            ∙ ap (λ l. l ++ (port / 256) ∷ (port % 256) ∷ d.input) e;
        text = text;
        silent = quiet;
      }

  read_address-Addressed :
      (atyp : ℕ) (c d : ClientConn) (t : Text)
      → All (λ x. x < 256) c.input
      → read_address env atyp c ≡ (ok t, d)
      → Addressed atyp c d t
  unfolding read_address
  read_address-Addressed atyp c d t small h = elim (Bool-cases (atyp == 1)) [
    | inl x ↦
        let (a, b, l, i, k) =
          then_read-ok 4 (codes "failed to read ipv4 address: ")
            (λ addr. read_port (env.ip_string addr)) c d t (rw x at h) in
        after_host atyp (ipv4 a) a b t c d l (ground (arith, x)) i small k
    | inr x ↦ elim (Bool-cases (atyp == 3)) [
      | inl y ↦
          let (a, b, l, i, k) =
            then_read-ok 1 (codes "failed to read domain length: ")
              (λ len_buf.
                then_read (get_or len_buf 0 0) (codes "failed to read domain: ")
                  (λ domain. read_port (env.text_of_bytes domain)))
              c d t (rw (x, y) at h) in
          let (m, b', l', i', k') =
            then_read-ok (get_or a 0 0) (codes "failed to read domain: ")
              (λ domain. read_port (env.text_of_bytes domain)) (record c { input = b }) d t k in
          let (n, e) = one a l in
          let whole : c.input ≡ n ∷ (m ++ b') = ground (arith, i, e, i') in
          let size : length m ≡ n = l' ∙ ap (λ l. get_or l 0 0) e in
          let fits : n < 256 = (subst (All (λ x. x < 256)) whole small).0 in
          after_host atyp (name m) (n ∷ m) b' t c d (omega (arith, size, fits))
            (ground (arith, y, size)) whole small k'
      | inr y ↦ elim (Bool-cases (atyp == 4)) [
        | inl z ↦
            let (a, b, l, i, k) =
              then_read-ok 16 (codes "failed to read ipv6 address: ")
                (λ addr. read_port (env.ip_string addr)) c d t (rw (x, y, z) at h) in
            after_host atyp (ipv6 a) a b t c d l (ground (arith, z)) i small k
        | inr z ↦ absurd (refused (ap (λ p. p.0) (rw (x, y, z) at h)))
      ]
    ]
  ]

  after_header-Accepted :
      (x y z w : ℕ) (b : List ℕ) (c d : ClientConn) (t : Text)
      → c.input ≡ x ∷ y ∷ z ∷ w ∷ b
      → All (λ b. b < 256) b
      → after_header env (x ∷ y ∷ z ∷ w ∷ []) (record c { input = b }) ≡ (ok t, d)
      → Accepted c d t
  unfolding after_header
  after_header-Accepted x y z w b c d t i small h = elim (Bool-cases (x == 5)) [
    | inr v ↦ absurd (refused (ap (λ p. p.0) (rw v at h)))
    | inl v ↦ elim (Bool-cases (y == 1)) [
      | inr u ↦ absurd (refused (ap (λ p. p.0) (rw (v, u) at h)))
      | inl u ↦
          let a = read_address-Addressed w (record c { input = b }) d t small (rw (v, u) at h) in
          record {
            rsv = z;
            host = a.host;
            port = a.port;
            sized = a.sized;
            port_fits = a.port_fits;
            bytes =
                i
                ∙ ap (λ l. x ∷ y ∷ z ∷ l) a.bytes
                ∙ ground (
                  arith,
                  v,
                  u,
                  append_assoc (address_bytes a.host) ((a.port / 256) ∷ (a.port % 256) ∷ [])
                      d.input,
                );
            text = a.text;
            silent = a.silent;
          }
    ]
  ]

  -- Only requests of RFC 1928 are accepted: when the reader returns a target, the bytes that it took
  -- are a CONNECT request, the target is that of its host and port, and nothing was written. The
  -- input is to be bytes.
  pub read_socks5_target-Accepted :
      (c d : ClientConn) (t : Text)
      → All (λ b. b < 256) c.input
      → read_socks5_target env c ≡ (ok t, d)
      → Accepted c d t
  unfolding read_socks5_target
  read_socks5_target-Accepted c d t small h =
      let (a, b, l, i, k) =
        then_read-ok 4 (codes "failed to read socks5 request header: ") (after_header env) c d t
          h in
      let (x, y, z, w, e) = four a l in
      after_header-Accepted x y z w b c d t (i ∙ ap (λ l. l ++ b) e) (All-rest a b c.input i small)
        (ap (λ l. after_header env l (record c { input = b })) (sym e) ∙ k)
