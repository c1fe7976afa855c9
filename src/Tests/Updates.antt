-- ===== src/Tests/Updates.antt =====
-- Runs of main/ota_if.c, with a flash of two slots that never fails.
use airu_v2_fw.Base.{
  codes, ℕ, ◌≡◌, ◌≢◌, true, List, [], ◌∷◌, ◌++◌, codes, ◌==◌, if◌then◌else◌, refl, arith,
}
use airu_v2_fw.Ota.{
  write_update, finish_update, write_received, OtaOps, closed, lost, part, HttpAnswers,
  ota_commence, esp_ok,
}
use airu_v2_fw.Ota.Install.{Installs, ota_commence-Installs, boots}

-- The partition that boots, and the images of the partitions.
pub record Chip : Type 0 where
  pub boot : ℕ
  pub images : ℕ → List ℕ

abbrev pub put : Chip → ℕ → List ℕ → Chip
put c p b = record c { images = λ q. if p == q then b else c.images q }

pub put_same : (c : Chip) (p : ℕ) (b : List ℕ) → (put c p b).images p ≡ b
put_same c p b = ground arith

pub put_other : (c : Chip) (p q : ℕ) (b : List ℕ) → p ≢ q → (put c p b).images q ≡ c.images q
put_other c p q b n = ground arith

abbrev pub two_slots : OtaOps
two_slots = record {
  Flash = Chip;
  boot_partition = λ c. c.boot;
  running_partition = λ c. 0;
  next_update_partition = λ c. 1;
  image = λ c. c.images;
  ota_begin = λ p c. (esp_ok, p, put c p []);
  ota_write = λ h b c. (esp_ok, put c h (c.images h ++ b));
  ota_end = λ h c. (esp_ok, c);
  check_identity = λ p q c. p == q;
  set_boot_partition = λ p c. (esp_ok, record c { boot = p });
  target = λ h c. h;
  begin-boot = λ p c. refl;
  write-boot = λ h b c. refl;
  end-boot = λ h c. refl;
  set-boot = λ p c. refl;
  begin-target = λ p c e. refl;
  write-target = λ h k b c. refl;
  begin-image = λ p c e. put_same c p [];
  begin-image_ne = λ p q c n. put_other c p q [] n;
  write-image = λ h b c e. put_same c h (c.images h ++ b);
  write-image_ne = λ h q b c n. put_other c h q (c.images h ++ b) n;
  end-image = λ h q c. refl;
  set-image = λ p q c. refl;
}

abbrev pub factory : Chip
factory = record { boot = 0; images = λ p. if p == 0 then 1 ∷ 2 ∷ [] else 9 ∷ [] }

abbrev pub image_server : HttpAnswers
image_server = record {
  initialised = true;
  opened = esp_ok;
  body = part (5 ∷ 6 ∷ []) (part (7 ∷ []) closed);
}

abbrev broken_server : HttpAnswers
broken_server = record image_server { body = part (5 ∷ 6 ∷ []) lost }

unfoldable pub one_name : List ℕ
one_name = codes "a.bin"

installed :
    boots two_slots (ota_commence two_slots one_name (λ _. image_server) factory).flash
    ≡ 5 ∷ 6 ∷ 7 ∷ []
unfolding ota_commence write_update finish_update write_received one_name
installed = refl

kept :
    boots two_slots (ota_commence two_slots one_name (λ _. broken_server) factory).flash
    ≡ 1 ∷ 2 ∷ []
unfolding ota_commence write_update finish_update write_received one_name
kept = refl

ota_commence-Installs_example :
    Installs two_slots image_server.body factory
      (ota_commence two_slots one_name (λ _. image_server) factory)
ota_commence-Installs_example =
    ota_commence-Installs two_slots one_name (λ _. image_server) factory (omega arith)
