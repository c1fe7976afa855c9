-- ===== src/Tests/Card.antt =====
-- Runs of main/sd_if.c, on a card that is a function from paths to contents.
use airu_v2_fw.Base.{
  ℕ, ◌≡◌, ◌≢◌, false, List, [], ◌∷◌, ◌++◌, length, Option, none, some, if◌then◌else◌, refl, sym, ap,
  ◌∙◌, arith, inl, inr, Bool-cases, codes, take,
}
use airu_v2_fw.Base.Bytes.{equal, equal_refl, equal_iff}
use airu_v2_fw.Base.Int.{pos}
use airu_v2_fw.Upload.Chunk.{take_all}
use airu_v2_fw.Sd.{FileSystem, or_empty, Date, file_name, two_digits}
use airu_v2_fw.Sd.Dates.{IsDate}
use airu_v2_fw.Sd.Packets.{log_file, write_all, stored, write_all-log_file}
use airu_v2_fw.Sd.Logging.{
  log_file_name, Log, IsQuiet, free, closed, null, esp_sd_log_write, periodic_timer_callback,
  periodic_timer_callback-closed,
}

abbrev pub Files : Type 0
Files = List ℕ → Option (List ℕ)

abbrev pub put : Files → List ℕ → List ℕ → Files
put c n b k = if equal n k then some b else c k

put_same : (c : Files) (n b : List ℕ) → put c n b n ≡ some b
put_same c n b = rw (equal_refl n) refl

pub put_other : (c : Files) (n k b : List ℕ) → n ≢ k → put c n b k ≡ c k
put_other c n k b d = elim (Bool-cases (equal n k)) [
  | inl e ↦ absurd (d ((equal_iff n k).0 e))
  | inr e ↦ rw e refl
]

pub opened-same :
    (n : List ℕ) (c d : Files)
    → some (put c n (or_empty (c n))) ≡ some d
    → d n ≡ some (or_empty (c n))
opened-same n c d e = sym (ap (λ o. or_empty_files o n) e) ∙ put_same c n (or_empty (c n))
  where
    or_empty_files : Option Files → Files
    or_empty_files none = c
    or_empty_files (some f) = f

pub opened-other :
    (n k : List ℕ) (c d : Files) → some (put c n (or_empty (c n))) ≡ some d → n ≢ k → d k ≡ c k
opened-other n k c d e h = sym (ap (λ o. or_empty_files o k) e) ∙ put_other c n k (or_empty (c n)) h
  where
    or_empty_files : Option Files → Files
    or_empty_files none = c
    or_empty_files (some f) = f

pub printed :
    (n b : List ℕ) (c : Files)
    → put c n (or_empty (c n) ++ b) n ≡ some (or_empty (c n) ++ take (length b) b)
printed n b c = put_same c n (or_empty (c n) ++ b) ∙ rw (take_all (length b) b (omega arith)) refl

abbrev pub ram_card : FileSystem
ram_card = record {
  Card = Files;
  contents = λ c n. c n;
  open_append = λ n c. some (put c n (or_empty (c n)));
  print = λ n b c. (length b, put c n (or_empty (c n) ++ b));
  remove = λ n c. (pos 0, λ k. if equal n k then none else c k);
  rename = λ n m c. (pos 0, λ k. if equal m k then c n else if equal n k then none else c k);
  open-contents = opened-same;
  open-contents_ne = opened-other;
  print-contents = printed;
  print-contents_ne = λ n k b c d. put_other c n k (or_empty (c n) ++ b) d;
}

abbrev monday : Date
monday = record { year = 19; month = 3; day = 4 }

abbrev tuesday : Date
tuesday = record monday { day = 5 }

monday-IsDate : IsDate monday
monday-IsDate = record { year_fits = omega arith; month_fits = omega arith; day_fits = omega arith }

tuesday-IsDate : IsDate tuesday
tuesday-IsDate = record {
  year_fits = omega arith;
  month_fits = omega arith;
  day_fits = omega arith;
}

abbrev writes : List (List ℕ × Date)
writes = (codes "a\n", monday) ∷ (codes "b\n", tuesday) ∷ (codes "c\n", monday) ∷ []

abbrev pub empty_card : Files
empty_card k = none

monday_name : file_name monday ≡ codes "/sdcard/19-03-04.csv"
unfolding file_name two_digits
monday_name = refl

write_all-log_file_example :
    write_all ram_card writes empty_card (file_name monday)
    ≡ log_file (stored ram_card monday writes empty_card)
write_all-log_file_example =
    write_all-log_file ram_card (λ n b c. refl) monday writes empty_card monday-IsDate
      (monday-IsDate, (tuesday-IsDate, (monday-IsDate, tt))) refl

abbrev pub quiet_log : Log ram_card
quiet_log = record {
  mutex = free;
  stream = null;
  first_time = false;
  counting = 1;
  card = empty_card;
}

quiet_log-IsQuiet : IsQuiet ram_card quiet_log
quiet_log-IsQuiet = record { not_held = inl refl; no_stream = refl }

periodic_timer_callback-closed_example :
    (m : Log ram_card) × (periodic_timer_callback ram_card 4096 quiet_log ≡ some m)
    × (m.stream ≡ closed)
    × (esp_sd_log_write ram_card (codes "x") m ≡ none)
periodic_timer_callback-closed_example =
    periodic_timer_callback-closed ram_card 4096 (codes "x") quiet_log
      (put empty_card log_file_name []) quiet_log-IsQuiet refl refl
