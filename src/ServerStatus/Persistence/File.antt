-- ===== src/ServerStatus/Persistence/File.antt =====
-- The status file is replaced as a whole, and gives back the entries that were written.
use ssh_roundrobin.Prelude.{
  ◌≡◌, ◌≢◌, ◌∙◌, ap, false, Option, none, some, Option-cases, inl, inr, arith, [],
}
use ssh_roundrobin.Text.{Text, Error, codes, is_empty}
use ssh_roundrobin.Dict
use ssh_roundrobin.Outcome.{Result, ok, error_or_ok}
use ssh_roundrobin.Env.{Env}
use ssh_roundrobin.Os.{Os}
use ssh_roundrobin.ServerStatus.{ServerStatusTracker, snapshot}
use ssh_roundrobin.ServerStatus.Persistence.{StatusFile, Json, flush, give_up, replace_file}

-- What the file operations do to the contents of files, by path. A new temporary file has a name
-- that no file had; writing, closing and removing it concern no other file; a rename that fails
-- changes nothing.
pub record Files {W : Type 0} (env : Env W) (os : Os W) : Type 0 where
  pub content : W → Text → Option Text
  pub now_keeps : (w : W) (q : Text) → content (env.now w).1 q ≡ content w q
  pub read_content : (w : W) (q c : Text) → content w q ≡ some c → (env.read_file q w).0 ≡ ok c
  pub create_new :
      (d p n : Text) (w : W)
      → (os.create_temp d p w).0 ≡ ok n
      → (content w n ≡ none) × (content (os.create_temp d p w).1 n ≡ some [])
  pub create_keeps :
      (d p q c : Text) (w : W) → content w q ≡ some c → content (os.create_temp d p w).1 q ≡ some c
  pub write_content :
      (n c : Text) (w : W)
      → (os.write_temp n c w).0 ≡ none
      → content w n ≡ some []
      → content (os.write_temp n c w).1 n ≡ some c
  pub write_keeps : (n c q : Text) (w : W) → n ≢ q → content (os.write_temp n c w).1 q ≡ content w q
  pub close_keeps : (n q : Text) (w : W) → content (os.close_temp n w).1 q ≡ content w q
  pub remove_keeps : (n q : Text) (w : W) → n ≢ q → content (os.remove n w).1 q ≡ content w q
  pub rename_content :
      (a b : Text) (w : W)
      → (os.rename a b w).0 ≡ none
      → content (os.rename a b w).1 b ≡ content w a
  pub rename_keeps :
      (a b q : Text) (e : Error) (w : W)
      → (os.rename a b w).0 ≡ some e
      → content (os.rename a b w).1 q ≡ content w q

module _ {W : Type 0} (env : Env W) (os : Os W) (files : Files env os) where
  replace_file-error :
      (path tmp text : Text) (w : W) (e : Error)
      → tmp ≢ path
      → (replace_file os path tmp text w).0 ≡ some e
      → files.content (replace_file os path tmp text w).1 path ≡ files.content w path
  unfolding replace_file give_up
  replace_file-error path tmp text w e n h =
      let w1 = (os.write_temp tmp text w).1 in
      let w2 = (os.close_temp tmp w1).1 in
      let w3 = (os.rename tmp path w2).1 in
      let closed : files.content w2 path ≡ files.content w path =
        files.close_keeps tmp path w1 ∙ files.write_keeps tmp text path w n in
      elim (Option-cases (os.write_temp tmp text w).0) [
        | inr (x, a) ↦ rw (a, replace_file) (files.remove_keeps tmp path w2 n ∙ closed)
        | inl a ↦ elim (Option-cases (os.close_temp tmp w1).0) [
          | inr (x, b) ↦ rw (a, b, replace_file) (files.remove_keeps tmp path w2 n ∙ closed)
          | inl b ↦ elim (Option-cases (os.rename tmp path w2).0) [
            | inr (x, c) ↦
                rw (a, b, c, replace_file)
                  (files.remove_keeps tmp path w3 n
                    ∙ files.rename_keeps tmp path path x w2 c
                    ∙ closed)
            | inl c ↦ absurd (ground (arith, h, a, b, c))
          ]
        ]
      ]

  replace_file-content :
      (path tmp text : Text) (w : W)
      → files.content w tmp ≡ some []
      → (replace_file os path tmp text w).0 ≡ none
      → files.content (replace_file os path tmp text w).1 path ≡ some text
  unfolding replace_file give_up
  replace_file-content path tmp text w n h =
      let w1 = (os.write_temp tmp text w).1 in
      let w2 = (os.close_temp tmp w1).1 in
      elim (Option-cases (os.write_temp tmp text w).0) [
        | inr (x, a) ↦ absurd (ground (arith, h, a))
        | inl a ↦ elim (Option-cases (os.close_temp tmp w1).0) [
          | inr (x, b) ↦ absurd (ground (arith, h, a, b))
          | inl b ↦ elim (Option-cases (os.rename tmp path w2).0) [
            | inr (x, c) ↦ absurd (ground (arith, h, a, b, c))
            | inl c ↦
                rw (a, b, c, replace_file)
                  (files.rename_content tmp path w2 c
                    ∙ files.close_keeps tmp tmp w1
                    ∙ files.write_content tmp text w a n)
          ]
        ]
      ]

  module _ (json : Json) where
    -- The file that `flush` writes: the snapshot and the time.
    abbrev pub written : ServerStatusTracker → W → StatusFile
    written t w = record { updated_at = (env.now w).0; servers = snapshot t }

    -- The world in which the temporary file is created, and after that.
    abbrev created : ServerStatusTracker → W → Result Text × W
    created t w =
        os.create_temp (os.dir_path t.file_path) (codes ".server_status_*.tmp") (env.now w).1

    flush-error :
        (t : ServerStatusTracker) (w : W) (old : Text) (e : Error)
        → is_empty t.file_path ≡ false
        → files.content w t.file_path ≡ some old
        → (flush env os json t w).0 ≡ some e
        → files.content (flush env os json t w).1 t.file_path ≡ some old
    unfolding flush
    flush-error t w old e named there h =
        let before : files.content (env.now w).1 t.file_path ≡ some old =
          files.now_keeps w t.file_path ∙ there in
        let opened : files.content (created t w).1 t.file_path ≡ some old =
          files.create_keeps _ _ t.file_path old (env.now w).1 before in
        elim (error_or_ok (json.marshal (written t w))) [
          | inl (x, a) ↦ rw (named, a, flush) before
          | inr (text, a) ↦ elim (error_or_ok (created t w).0) [
            | inl (x, b) ↦ rw (named, a, b, flush) opened
            | inr (tmp, b) ↦
                rw (named, a, b, flush)
                  (replace_file-error t.file_path tmp text (created t w).1 e
                      (λ same.
                        taken tmp t.file_path same (files.create_new _ _ tmp (env.now w).1 b).0
                          before)
                      (ground (arith, h, named, a, b))
                    ∙ opened)
          ]
        ]
      where
        taken :
            (a b : Text)
            → a ≡ b
            → files.content (env.now w).1 a ≡ none
            → ¬ (files.content (env.now w).1 b ≡ some old)
        taken a b same h k = ground (arith, h, k, ap (files.content (env.now w).1) same)

    pub flush-content :
        (t : ServerStatusTracker) (w : W)
        → is_empty t.file_path ≡ false
        → (flush env os json t w).0 ≡ none
        → (text : Text) × (json.marshal (written t w) ≡ ok text)
          × (files.content (flush env os json t w).1 t.file_path ≡ some text)
    unfolding flush
    flush-content t w named h = elim (error_or_ok (json.marshal (written t w))) [
      | inl (x, a) ↦ absurd (ground (arith, h, named, a))
      | inr (text, a) ↦ elim (error_or_ok (created t w).0) [
        | inl (x, b) ↦ absurd (ground (arith, h, named, a, b))
        | inr (tmp, b) ↦ (
          text,
          a,
          rw (named, a, b, flush)
              (replace_file-content t.file_path tmp text (created t w).1
                (files.create_new _ _ tmp (env.now w).1 b).1 (ground (arith, h, named, a, b))),
        )
      ]
    ]

    -- A flush that fails leaves the status file as it was, whatever step fails; one that succeeds
    -- leaves it with the whole new contents. There was a file before.
    pub flush_atomic :
        (t : ServerStatusTracker) (w : W) (old : Text)
        → is_empty t.file_path ≡ false
        → files.content w t.file_path ≡ some old
        → ((e : Error)
            → (flush env os json t w).0 ≡ some e
            → files.content (flush env os json t w).1 t.file_path ≡ some old)
          × ((flush env os json t w).0 ≡ none
              → (text : Text) × (json.marshal (written t w) ≡ ok text)
                × (files.content (flush env os json t w).1 t.file_path ≡ some text))
    flush_atomic t w old named there =
        (λ e. flush-error t w old e named there, flush-content t w named)
