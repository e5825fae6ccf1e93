-- ===== src/Tests/Disk.antt =====
-- A world with files and a clock for the tests of the outer parts: the clock advances a second at each
-- reading, and a signal other than 0 ends the one process.
use ssh_roundrobin.Prelude.{
  ℕ, ◌+◌, ◌≡◌, refl, subst, sym, ◌∙◌, ap, Bool, true, false, ◌&&◌, Option, none, some, List, [],
  ◌∷◌, arith, if◌then◌else◌, Bool-cases, inl, inr, pos, ◌==◌, Option-cases,
}
use ssh_roundrobin.Text.{Text, Error, codes, text_eq, text_eq_iff, is_empty}
use ssh_roundrobin.Dict
use ssh_roundrobin.Dict.{Dict}
use ssh_roundrobin.Outcome.{Result, ok, err}
use ssh_roundrobin.Env.{Env, second}
use ssh_roundrobin.Os.{Os}
use ssh_roundrobin.ServerStatus.{ServerStatusEntry, status_success}
use ssh_roundrobin.ServerStatus.Persistence.{Json, StatusFile}
use ssh_roundrobin.ServerStatus.Persistence.File.{Files}
use ssh_roundrobin.Daemon.Stop.{Clock}

pub record Disk : Type 0 where
  pub files : Dict Text
  pub clock : ℕ
  pub alive : Bool

abbrev pub put_file : Text → Text → Disk → Disk
put_file path content d = record d { files = Dict.put d.files path content }

abbrev pub found : Option Text → Result Text
found none = err (codes "no such file")
found (some c) = ok c

abbrev pub disk_env : Env Disk
disk_env = record {
  now = λ d. (d.clock, record d { clock = d.clock + second });
  read_file = λ path d. (found (Dict.get d.files path), d);
  parse_private_key = λ key. ok 1;
  dial_ssh = λ a cfg d. (ok (record { conn = some 1 }), d);
  stdout_pipe = λ parts d. (none, d);
  stdin_pipe = λ parts d. (none, d);
  start_command = λ parts d. (ok 1, d);
  close_stdin = λ n d. d;
  close_stdout = λ n d. d;
  kill_process = λ n d. d;
  wait_process = λ n d. d;
  new_client_conn = λ n a cfg d. (ok (record { conn = some 1 }), d);
  ip_string = λ b. b;
  text_of_bytes = λ b. b;
  quote = λ s. s;
  send_keepalive = λ n d. (none, d);
  dial_target = λ n target d. (ok 1, d);
  close_ssh = λ k d. (none, d);
  on_connection_error = none;
}

abbrev pub temp_name : Text
temp_name = codes "tmp1"

abbrev create : Option Text → Disk → Result Text × Disk
create none d = (ok temp_name, put_file temp_name [] d)
create (some c) d = (err (codes "name taken"), d)

abbrev move : Option Text → Text → Text → Disk → Option Error × Disk
move none a b d = (some (codes "no such file"), d)
move (some c) a b d = (none, put_file b c (record d { files = Dict.delete d.files a }))

abbrev pub disk_os : Os Disk
disk_os = record {
  current_user_home = λ d. (ok (codes "/root"), d);
  user_home_dir = λ d. (ok (codes "/root"), d);
  join_path = λ parts. codes "/root/.ssh/id_rsa";
  dir_path = λ path. codes ".";
  stat = λ path d. (none, d);
  scan_lines =
      λ path d. (ok (codes "# upstreams" ∷ codes "a:2022:pw" ∷ [] ∷ codes " b " ∷ [], none), d);
  write_file = λ path content d. (none, put_file path content d);
  remove = λ path d. (none, record d { files = Dict.delete d.files path });
  is_not_exist = λ e. true;
  create_temp = λ dir pattern d. create (Dict.get d.files temp_name) d;
  write_temp = λ name content d. (none, put_file name content d);
  close_temp = λ name d. (none, d);
  rename = λ a b d. move (Dict.get d.files a) a b d;
  getpid = λ d. pos 4321;
  find_process = λ pid d. (none, d);
  signal = λ pid s d.
      if s == 0
      then (if d.alive then none else some (codes "process already finished"), d)
      else (none, record d { alive = false });
  sleep = λ t d. record d { clock = d.clock + t };
  executable = λ d. (ok (codes "/bin/ssh-roundrobin"), d);
  eval_symlinks = λ path d. (ok path, d);
  args = codes "-strategy" ∷ codes "failover" ∷ [];
  open_log = λ path d. (ok 3, d);
  open_null = λ d. (ok 4, d);
  close_file = λ n d. d;
  fork_exec = λ path args n d. (ok (pos 77), record d { alive = true });
  listen = λ a d.
      if text_eq a (codes "taken") then (err (codes "address already in use"), d) else (ok 5, d);
  close_listener = λ n d. d;
}

pub disk-Clock : Clock disk_env disk_os
disk-Clock = record {
  time = λ d. d.clock;
  now_after = λ d. omega arith;
  after_now = λ d. omega arith;
  signal_after = λ pid s d. ground arith;
  sleep_after = λ t d. omega arith;
}

create-new :
    (n : Text) (d : Disk)
    → (disk_os.create_temp [] [] d).0 ≡ ok n
    → (Dict.get d.files n ≡ none) × (Dict.get (disk_os.create_temp [] [] d).1.files n ≡ some [])
create-new n d h = elim (Option-cases (Dict.get d.files temp_name)) [
  | inr (c, e) ↦ absurd (ground (arith, h, e))
  | inl e ↦
      let same : temp_name ≡ n = ground (arith, h, e) in
      (
        ap (Dict.get d.files) (sym same) ∙ e,
        ground (arith, e, Dict.get-put d.files temp_name [] n, text_eq_iff temp_name n, same),
      )
]

create-keeps :
    (q c : Text) (d : Disk)
    → Dict.get d.files q ≡ some c
    → Dict.get (disk_os.create_temp [] [] d).1.files q ≡ some c
create-keeps q c d h = elim (Option-cases (Dict.get d.files temp_name)) [
  | inr (x, e) ↦ rw (e, h) refl
  | inl e ↦ ground (
    arith,
    e,
    h,
    Dict.get-put d.files temp_name [] q,
    text_eq_iff temp_name q,
    λ (same : temp_name ≡ q). ap (Dict.get d.files) same,
  )
]

rename-content :
    (a b : Text) (d : Disk)
    → (disk_os.rename a b d).0 ≡ none
    → Dict.get (disk_os.rename a b d).1.files b ≡ Dict.get d.files a
rename-content a b d h = elim (Option-cases (Dict.get d.files a)) [
  | inl e ↦ absurd (ground (arith, h, e))
  | inr (c, e) ↦ ground (arith, e, Dict.get-put (Dict.delete d.files a) b c b, text_eq_iff b b)
]

rename-keeps :
    (a b q : Text) (e : Error) (d : Disk)
    → (disk_os.rename a b d).0 ≡ some e
    → Dict.get (disk_os.rename a b d).1.files q ≡ Dict.get d.files q
rename-keeps a b q e d h = elim (Option-cases (Dict.get d.files a)) [
  | inl x ↦ rw x refl
  | inr (c, x) ↦ absurd (ground (arith, h, x))
]

pub disk-Files : Files disk_env disk_os
disk-Files = record {
  content = λ d path. Dict.get d.files path;
  now_keeps = λ d q. refl;
  read_content = λ d q c h. rw h refl;
  create_new = λ d p n w h. create-new n w h;
  create_keeps = λ d p q c w h. create-keeps q c w h;
  write_content = λ n c w h k. ground (arith, Dict.get-put w.files n c n, text_eq_iff n n);
  write_keeps = λ n c q w h. ground (arith, Dict.get-put w.files n c q, text_eq_iff n q);
  close_keeps = λ n q w. refl;
  remove_keeps = λ n q w h. ground (arith, Dict.get-delete w.files n q, text_eq_iff n q);
  rename_content = λ a b w h. rename-content a b w h;
  rename_keeps = λ a b q e w h. rename-keeps a b q e w h;
}

pub disk-Files_content : (d : Disk) (q : Text) → disk-Files.content d q ≡ Dict.get d.files q
unfolding disk-Files
disk-Files_content d q = refl

pub disk-reads_back :
    (q content : Text) (a b : Disk)
    → disk_os.write_file q content a ≡ (none, b)
    → (disk_env.read_file q b).0 ≡ ok content
disk-reads_back q content a b h =
    subst (λ d. found (Dict.get d.files q) ≡ ok content) (ap (λ r. r.1) h)
      (ground (arith, Dict.get-put a.files q content q, text_eq_iff q q))

-- An encoding of the files with one entry that has no error.
abbrev encode_one : ℕ → Text → ServerStatusEntry → Result Text
encode_one t k e =
    if text_eq e.addr k && text_eq e.status status_success && is_empty e.last_error
    then ok (
        t ∷ e.last_checked ∷ e.consecutive_ok ∷ e.consecutive_fail ∷ e.total_success ∷ e.total_fail
        ∷ k)
    else err (codes "unsupported")

abbrev encode : ℕ → List (Text × ServerStatusEntry) → Result Text
encode t [] = err (codes "unsupported")
encode t ((k, e) ∷ []) = encode_one t k e
encode t ((k, e) ∷ x ∷ rest) = err (codes "unsupported")

abbrev decode : Text → Result StatusFile
decode (t ∷ c ∷ n ∷ f ∷ s ∷ l ∷ k) = ok (record {
  updated_at = t;
  servers = record {
    entries =
        (
          k,
          record {
            addr = k;
            status = status_success;
            last_checked = c;
            consecutive_ok = n;
            consecutive_fail = f;
            total_success = s;
            total_fail = l;
            last_error = [];
          },
        )
        ∷ [];
  };
})
decode _ = err (codes "unexpected end of JSON input")

abbrev pub disk_json : Json
disk_json = record { marshal = λ sf. encode sf.updated_at sf.servers.entries; unmarshal = decode }

one :
    (t : ℕ) (k : Text) (e : ServerStatusEntry) (text : Text)
    → encode_one t k e ≡ ok text
    → decode text ≡ ok (record { updated_at = t; servers = record { entries = (k, e) ∷ [] } })
one t k e text h =
    elim (Bool-cases
      (text_eq e.addr k && text_eq e.status status_success && is_empty e.last_error)) [
        | inr b ↦ absurd (ground (arith, h, b))
        | inl b ↦
            let t1 : e.addr ≡ k = ground (arith, b, text_eq_iff e.addr k) in
            let t2 : e.status ≡ status_success =
              ground (arith, b, text_eq_iff e.status status_success) in
            let t3 : e.last_error ≡ [] = empty e.last_error (ground (arith, b)) in
            ap decode (shape b h) ∙ ground (arith, t1, t2, t3)
      ]
  where
    empty : (m : Text) → is_empty m ≡ true → m ≡ []
    empty [] p = refl
    empty (c ∷ m) p = absurd (ground arith)

    shape :
        (text_eq e.addr k && text_eq e.status status_success && is_empty e.last_error) ≡ true
        → encode_one t k e ≡ ok text
        → text
          ≡ t ∷ e.last_checked ∷ e.consecutive_ok ∷ e.consecutive_fail ∷ e.total_success
            ∷ e.total_fail ∷ k
    shape b h = ground (arith, b, h)

pub disk_json-back :
    (sf : StatusFile) (text : Text)
    → disk_json.marshal sf ≡ ok text
    → disk_json.unmarshal text ≡ ok sf
disk_json-back sf text h = back sf.updated_at sf.servers.entries text h
  where
    back :
        (t : ℕ) (l : List (Text × ServerStatusEntry)) (text : Text)
        → encode t l ≡ ok text
        → decode text ≡ ok (record { updated_at = t; servers = record { entries = l } })
    back t [] text h = absurd (ground arith)
    back t ((k, e) ∷ []) text h = one t k e text h
    back t ((k, e) ∷ x ∷ rest) text h = absurd (ground arith)
