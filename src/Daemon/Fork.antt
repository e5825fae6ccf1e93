-- ===== src/Daemon/Fork.antt =====
-- The child that `Daemonize` leaves behind.
use ssh_roundrobin.Prelude.{
  ℕ, ◌≡◌, refl, ◌∙◌, ap, subst, true, false, ◌||◌, none, List, [], ◌∷◌, ◌++◌, arith, inl, inr, ℤ,
}
use ssh_roundrobin.Text.{Text, codes, text_eq, text_eq_refl, is_empty}
use ssh_roundrobin.Text.Decimal.{itoa, Int64}
use ssh_roundrobin.Dict.{has_text}
use ssh_roundrobin.Outcome.{ok, error_or_ok}
use ssh_roundrobin.Env.{Env}
use ssh_roundrobin.Os.{Os}
use ssh_roundrobin.Daemon.{has_fg, child_args, after_fork, open_output, fork, daemonize, read_pid}
use ssh_roundrobin.Daemon.Pid.{read_pid-itoa}

has_fg-has_text : (l : List Text) → has_fg l ≡ has_text (codes "-fg") l
unfolding has_fg
has_fg-has_text [] = refl
has_fg-has_text (a ∷ l) = ap (◌||◌ (text_eq a (codes "-fg"))) (has_fg-has_text l)

has_text-append : (k : Text) (l : List Text) → has_text k (l ++ k ∷ []) ≡ true
has_text-append k [] = ground (arith, text_eq_refl k)
has_text-append k (a ∷ l) = ground (arith, has_text-append k l)

-- Whatever the arguments of the parent, "-fg" is among those of its child.
child_args-has_text :
    (path : Text) (args : List Text) → has_text (codes "-fg") (child_args path args) ≡ true
unfolding child_args
child_args-has_text path args =
    ground (arith, has_fg-has_text args, has_text-append (codes "-fg") args)

module _ {W : Type 0} (env : Env W) (os : Os W) where
  -- The fork that `Daemonize` made.
  pub record Forked (pid_file : Text) (v : W) : Type 0 where
    pub path : Text
    pub args : List Text
    pub log : ℕ
    pub pid : ℤ
    pub before : W
    pub after : W
    pub forked : os.fork_exec path args log before ≡ (ok pid, after)
    pub in_foreground : has_text (codes "-fg") args ≡ true
    pub recorded :
        is_empty pid_file ≡ false
        → (os.write_file pid_file (itoa pid ++ codes "\n") after).0 ≡ none
        → (read_pid env os pid_file v).0 ≡ ok pid

  module _
      (back : (path content : Text) (a b : W)
        → os.write_file path content a ≡ (none, b)
        → (env.read_file path b).0 ≡ ok content)
      (closing : (n : ℕ) (path : Text) (a : W)
        → (env.read_file path (os.close_file n a)).0 ≡ (env.read_file path a).0)
      (fits : (path : Text) (args : List Text) (n : ℕ) (a b : W) (pid : ℤ)
        → os.fork_exec path args n a ≡ (ok pid, b)
        → Int64 pid) where
    after_fork-read_pid :
        (pid_file : Text) (pid : ℤ) (log : ℕ) (w : W)
        → Int64 pid
        → is_empty pid_file ≡ false
        → (os.write_file pid_file (itoa pid ++ codes "\n") w).0 ≡ none
        → (read_pid env os pid_file (after_fork os pid_file pid log w)).0 ≡ ok pid
    unfolding after_fork
    after_fork-read_pid pid_file pid log w int named written =
        let text : Text = itoa pid ++ codes "\n" in
        rw (named, after_fork)
          (read_pid-itoa env os pid_file pid _
            (closing log pid_file (os.write_file pid_file text w).1
              ∙ back pid_file text w (os.write_file pid_file text w).1
                  (ap (λ e. (e, (os.write_file pid_file text w).1)) written))
            int)

    fork-Forked :
        (path : Text) (args : List Text) (pid_file : Text) (log : ℕ) (w v : W)
        → has_text (codes "-fg") args ≡ true
        → fork os path args pid_file log w ≡ (none, v)
        → Forked pid_file v
    unfolding fork
    fork-Forked path args pid_file log w v flag h =
        elim (error_or_ok (os.fork_exec path args log w).0) [
          | inl (e, r) ↦ absurd (ground (arith, h, r))
          | inr (pid, r) ↦ record {
            path = path;
            args = args;
            log = log;
            pid = pid;
            before = w;
            after = (os.fork_exec path args log w).1;
            forked = ap (λ o. (o, (os.fork_exec path args log w).1)) r;
            in_foreground = flag;
            recorded = λ named written.
                subst (λ v. (read_pid env os pid_file v).0 ≡ ok pid) (ground (arith, h, r))
                  (after_fork-read_pid pid_file pid log (os.fork_exec path args log w).1
                    (fits path args log w (os.fork_exec path args log w).1 pid
                      (ap (λ o. (o, (os.fork_exec path args log w).1)) r))
                    named written);
          }
        ]

    pub daemonize-Forked :
        (pid_file log_file : Text) (w v : W)
        → daemonize os pid_file log_file w ≡ (none, v)
        → Forked pid_file v
    unfolding daemonize
    daemonize-Forked pid_file log_file w v h = elim (error_or_ok (os.executable w).0) [
      | inl (e, r) ↦ absurd (ground (arith, h, r))
      | inr (link, r) ↦ elim (error_or_ok (os.eval_symlinks link (os.executable w).1).0) [
        | inl (e, s) ↦ absurd (ground (arith, h, r, s))
        | inr (path, s) ↦
            let w2 = (os.eval_symlinks link (os.executable w).1).1 in
            elim (error_or_ok (open_output os log_file w2).0) [
              | inl (e, t) ↦ absurd (ground (arith, h, r, s, t))
              | inr (log, t) ↦
                  fork-Forked path (child_args path os.args) pid_file log
                    (open_output os log_file w2).1 v (child_args-has_text path os.args)
                    (ground (arith, h, r, s, t))
            ]
      ]
    ]
