-- ===== src/Tests/Sharing.antt =====
-- Runs of main/hdc1080_if.c and of the resources of an upload.
use airu_v2_fw.Base.{ℕ, ◌≡◌, true, List, [], ◌∷◌, some, codes, arith, refl}
use airu_v2_fw.Base.Int.{ℤ, pos, negsuc, neg_part}
use airu_v2_fw.Hdc.{Bus, Reading, hdc1080_poll}
use airu_v2_fw.Hdc.Readings.{Polled, hdc1080_poll-Polled}
use airu_v2_fw.Upload.{Sizes}
use airu_v2_fw.Upload.Resources.{Answers, http_upload_resources}
use airu_v2_fw.Upload.Releases.{is_settled, http_upload_resources-is_settled}

-- A sensor that answers each link with 25 degrees and half of the humidity.
abbrev sensor : Bus
sensor = record { State = ℕ; begin = λ cs n. (pos 0, 0x64 ∷ 0xd9 ∷ 0x80 ∷ 0x00 ∷ [], n) }

abbrev before : Reading sensor
before = record { temp = pos 0; hum = 0; links = 0; state = 0 }

hdc1080_poll-Polled_example : Polled before (hdc1080_poll sensor before)
hdc1080_poll-Polled_example = hdc1080_poll-Polled sensor before

-- An upload whose server answers with the status 200.
abbrev answers : Answers
answers = record {
  stat = λ path. some (pos 12);
  heap = 8000;
  heap_later = 8000;
  tx_given = λ n. true;
  tx_given_later = λ n. true;
  sz_given = true;
  resolved = true;
  socket_given = true;
  connected = true;
  request_sent = true;
  header_sent = true;
  opened = true;
  file_sent = true;
  closer_sent = true;
  response = pos 200;
}

small : (path : List ℕ) (size : ℤ) → answers.stat path ≡ some size → neg_part size ≡ 0
small path (pos n) e = refl
small path (negsuc n) e = ground arith

abbrev sizes : Sizes
sizes = record { chunk_sz = 4096; chunk_data_sz = 0 }

http_upload_resources-is_settled_example :
    is_settled (http_upload_resources answers sizes (codes "a.csv")) ≡ true
http_upload_resources-is_settled_example =
    http_upload_resources-is_settled answers sizes (codes "a.csv") small
