-- ===== src/Sd/Logging.antt =====
-- main/sd_if.c: the log file, its mutex and its rotation. A mutex that is held is not given back
-- within the wait of 30 ms. `none` is undefined behaviour: the use of a stream that was closed.
use airu_v2_fw.Base.{
  ℕ, ◌+◌, ◌*◌, ◌%◌, ◌≡◌, ◌≢◌, Bool, true, false, not, ◌&&◌, List, ◌++◌, length, codes, ltb,
  if◌then◌else◌, Option, none, some, arith, refl, ◌∙◌, ◌⊎◌, inl, inr, Option-cases,
}
use airu_v2_fw.Base.Int.{ℤ}
use airu_v2_fw.Base.Memory.{◌>>=◌}
use airu_v2_fw.Upload.Chunk.{take_all}
use airu_v2_fw.Sd.{FileSystem, or_empty, two_digits, esp_ok, esp_fail}

-- `FILE *` for the log file: null, open, or pointing to a stream that was closed.
pub data Stream : Type 0 where
  null opened closed : Stream

abbrev pub is_null : Stream → Bool
is_null null = true
is_null opened = false
is_null closed = false

-- Any pointer to a stream, once it is closed.
abbrev pub once_closed : Stream → Stream
once_closed null = null
once_closed opened = closed
once_closed closed = closed

-- `SD_LOG_FILE_NAME`, `SD_LOG_FILE_MOST_RECENT_NAME`, `SD_LOG_FILE_FORMAT`
unfoldable pub log_file_name : List ℕ
log_file_name = codes "/sdcard/LOGGING-0.log"

unfoldable pub most_recent_name : List ℕ
most_recent_name = codes "/sdcard/LOGGING-15.log"

unfoldable pub numbered_name : ℕ → List ℕ
numbered_name n = codes "/sdcard/LOGGING-" ++ (two_digits n ++ codes ".log")

-- `MOUNT_CONFIG_MAXLOGFILE`, and `MAX_FILE_SIZE_MB` in bytes
abbrev pub mount_config_maxlogfile : ℕ
mount_config_maxlogfile = 15

abbrev pub max_file_size : ℕ
max_file_size = 1 * 1024 * 1024

-- `s_log_mutex`: not created, or created and free or held.
pub data Mutex : Type 0 where
  not_created free held : Mutex

module _ (fs : FileSystem) where
  open fs use {Card, contents, open_append, print, remove, rename, open-contents, print-contents}

  pub record Log : Type 0 where
    pub mutex : Mutex
    pub stream : Stream
    pub first_time : Bool
    pub counting : ℕ
    pub card : Card

  abbrev given : Log → Log
  given l = record l { mutex = elim l.mutex [ not_created ↦ not_created | _ ↦ free ] }

  -- `releaseLogFileInstance`
  unfoldable pub release_log_file_instance : Log → Option Log
  release_log_file_instance l = elim l.mutex [
    | not_created ↦ some l
    | _ ↦ elim l.stream [
      | null ↦ some (given l)
      | opened ↦ some (given (record l { stream = null }))
      | closed ↦ none
    ]
  ]

  -- `getLogFileInstance` once the mutex is taken.
  unfoldable pub open_log : Log → Option (Stream × Log)
  unfolding release_log_file_instance
  open_log l =
      if not (is_null l.stream)
      then some (l.stream, l)
      else (elim (open_append log_file_name l.card) [
        | none ↦ release_log_file_instance l >>= λ m. some (null, m)
        | some c ↦ some (opened, record l { stream = opened; card = c })
      ])

  -- `getLogFileInstance`
  unfoldable pub get_log_file_instance : Log → Option (Stream × Log)
  unfolding open_log
  get_log_file_instance l = elim l.mutex [
    | held ↦ some (null, l)
    | _ ↦ open_log (record l { mutex = held })
  ]

  -- `vfprintf` and `fflush`
  unfoldable pub print_log : List ℕ → Log → Option Log
  print_log text l = elim l.stream [
    | opened ↦ some (record l { card = (print log_file_name text l.card).1 })
    | _ ↦ none
  ]

  -- `esp_sd_log_write`
  unfoldable pub esp_sd_log_write : List ℕ → Log → Option (ℤ × Log)
  unfolding get_log_file_instance print_log release_log_file_instance
  esp_sd_log_write text l = get_log_file_instance l >>= λ g.
      if is_null g.0
      then some (esp_fail, g.1)
      else (print_log text g.1 >>= λ p. release_log_file_instance p >>= λ r. some (esp_ok, r))

  -- The rotation of a log file that is too long, if the stream is open.
  unfoldable pub rotate : (size : ℕ) → Log → Option Log
  rotate size l =
      if ltb max_file_size size && (not (is_null l.stream) && not l.first_time)
      then (elim l.stream [
        | closed ↦ none
        | _ ↦
            let name = numbered_name l.counting in
            some (record l {
              stream = null;
              counting = (l.counting + 1) % 256;
              card = (rename log_file_name name (remove name l.card).1).1;
            })
      ])
      else some l

  -- The end of the numbers: the loop over the older files has no round, since it starts at 1 and
  -- goes on while its counter is above 14.
  unfoldable pub drop_oldest : Log → Log
  drop_oldest l =
      if ltb mount_config_maxlogfile l.counting
      then record l { counting = 15; card = (remove most_recent_name l.card).1 }
      else l

  -- `periodic_timer_callback`, with the size that `st` then has.
  unfoldable pub periodic_timer_callback : (size : ℕ) → Log → Option Log
  unfolding get_log_file_instance rotate drop_oldest release_log_file_instance
  periodic_timer_callback size l =
      (if l.first_time then some (null, l) else get_log_file_instance l) >>= λ g.
      rotate size g.1 >>= λ r.
      let d = drop_oldest r in
      (if d.first_time
        then some (record d { first_time = false })
        else if is_null g.0
        then some d
        else release_log_file_instance d)
      >>= λ e. some (record e { stream = once_closed g.0 })

  -- No log write is under way: the mutex is not held, and the stream is closed and forgotten.
  pub record IsQuiet (l : Log) : Type 0 where
    pub not_held : (l.mutex ≡ free) ⊎ (l.mutex ≡ not_created)
    pub no_stream : l.stream ≡ null

  -- What a log write does to a quiet log.
  pub record Logged (text : List ℕ) (l m : Log) (code : ℤ) : Type 0 where
    pub quiet : IsQuiet m
    pub text_there :
        code ≡ esp_ok
        → contents m.card log_file_name ≡ some (or_empty (contents l.card log_file_name) ++ text)
    pub same_card : code ≢ esp_ok → m.card ≡ l.card

  -- A log write to a quiet log returns and leaves it quiet; if it reports success, and the print
  -- wrote all its bytes, the text stands behind what the log file held; otherwise the card is as it was.
  pub esp_sd_log_write-Logged :
      (text : List ℕ) (l : Log)
      → ((n b : List ℕ) (c : Card) → (print n b c).0 ≡ length b)
      → IsQuiet l
      → (code : ℤ) × (m : Log) × (esp_sd_log_write text l ≡ some (code, m)) × Logged text l m code
  unfolding esp_sd_log_write get_log_file_instance open_log print_log release_log_file_instance
  esp_sd_log_write-Logged text l prints q = elim (Option-cases (open_append log_file_name l.card)) [
    | inl e ↦
        let m : Log = record l { mutex = free; stream = null } in
        (
          esp_fail,
          m,
          ground (arith, q.not_held, q.no_stream),
          record {
            quiet = record { not_held = inl refl; no_stream = refl };
            text_there = λ k. ground arith;
            same_card = λ _. refl;
          },
        )
    | inr (c, e) ↦
        let m : Log = record l {
          mutex = free;
          stream = null;
          card = (print log_file_name text c).1;
        } in
        (
          esp_ok,
          m,
          ground (arith, q.not_held, q.no_stream),
          record {
            quiet = record { not_held = inl refl; no_stream = refl };
            text_there = λ _.
                print-contents log_file_name text c
                ∙ rw
                    (
                      prints log_file_name text c,
                      take_all (length text) text (omega arith),
                      open-contents log_file_name l.card c e,
                    )
                    refl;
            same_card = λ k. absurd (k refl);
          },
        )
  ]

  -- The log after such a call.
  after_callback : ℕ → Log → Card → Log
  after_callback size l c =
      let name = numbered_name l.counting in
      let r =
        if ltb max_file_size size
        then record l {
          counting = (l.counting + 1) % 256;
          card = (rename log_file_name name (remove name c).1).1;
        }
        else record l { card = c } in
      record (drop_oldest r) { stream = closed; mutex = free }

  -- Every call of the timer's callback but the first, on a quiet log whose file can be opened,
  -- leaves the log's stream pointing to a file that it has closed, so the next log write is
  -- undefined behaviour.
  pub periodic_timer_callback-closed :
      (size : ℕ) (text : List ℕ) (l : Log) (c : Card)
      → IsQuiet l
      → l.first_time ≡ false
      → open_append log_file_name l.card ≡ some c
      → (m : Log) × (periodic_timer_callback size l ≡ some m)
        × (m.stream ≡ closed)
        × (esp_sd_log_write text m ≡ none)
  unfolding periodic_timer_callback esp_sd_log_write get_log_file_instance open_log rotate
      drop_oldest print_log release_log_file_instance after_callback
  periodic_timer_callback-closed size text l c q f e =
      (after_callback size l c, ground (arith, q.not_held, q.no_stream), refl, ground arith)
