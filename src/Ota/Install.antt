-- ===== src/Ota/Install.antt =====
-- What an update of main/ota_if.c leaves in the flash.
use airu_v2_fw.Base.{
  ℕ, ◌<◌, ◌≡◌, ◌≢◌, Bool, true, false, List, [], ◌++◌, length, ◌==◌, arith, refl, sym, ap, ◌∙◌,
  Bool-cases, inl, inr, Option, some, none, ◌↔◌,
}
use airu_v2_fw.Base.Memory.{◌>>=◌}
use airu_v2_fw.Nvs.{is_ok}
use airu_v2_fw.Base.Int.{ℤ}
use airu_v2_fw.Ota.{
  OtaOps, Download, closed, lost, part, HttpAnswers, Outcome, failed, write_received, finish_update,
  esp_ok, ota_commence, update_url, write_update,
}
use airu_v2_fw.Ota.Writing.{received, Written, write_received-Written}

module _ (ops : OtaOps) where
  open ops use {
    Flash, boot_partition, next_update_partition, image, ota_write, target, write-boot, write-image,
    write-image_ne, write-target, ota_begin, ota_end, set_boot_partition, check_identity,
    running_partition, begin-boot, begin-target, begin-image, begin-image_ne, end-boot, end-image,
    set-boot, set-image,
  }

  -- The image that the device starts next.
  abbrev pub boots : Flash → List ℕ
  boots f = image f (boot_partition f)

  -- All or nothing: a restart comes with the whole image, and without one the device starts what
  -- it would have started.
  pub record Installs (d : Download) (f : Flash) (o : Outcome ops) : Type 0 where
    pub kept : o.restarted ≡ false → boots o.flash ≡ boots f
    pub same_boot : o.restarted ≡ false → boot_partition o.flash ≡ boot_partition f
    pub installed : o.restarted ≡ true → received d ≡ some (boots o.flash)
    pub reports : (o.code ≡ esp_ok) ↔ (o.restarted ≡ true)

  failed-Installs :
      (d : Download) (c : Bool) (f g : Flash)
      → boot_partition g ≡ boot_partition f
      → image g (boot_partition f) ≡ image f (boot_partition f)
      → Installs d f (failed ops c g)
  failed-Installs d c f g b i = record {
    kept = λ _. ap (image g) b ∙ i;
    same_boot = λ _. b;
    installed = λ e. cc;
    reports = ground arith;
  }

  finish_update-Installs :
      (d : Download) (h p : ℕ) (f g : Flash) (b : List ℕ)
      → boot_partition g ≡ boot_partition f
      → image g (boot_partition f) ≡ image f (boot_partition f)
      → received d ≡ some b
      → image g p ≡ b
      → Installs d f (finish_update ops h p g)
  unfolding finish_update
  finish_update-Installs d h p f g b sb si r w = elim (Bool-cases (is_ok (ota_end h g).0)) [
    | inr bad ↦ rw bad (stop true (ota_end h g).1 ended_boot ended_image)
    | inl k ↦
        elim (Bool-cases (check_identity (running_partition (ota_end h g).1) p (ota_end h g).1)) [
          | inl same ↦ rw (k, same) (stop false (ota_end h g).1 ended_boot ended_image)
          | inr new ↦ elim (Bool-cases (is_ok (set_boot_partition p (ota_end h g).1).0)) [
            | inr bad ↦
                rw (k, new, bad)
                  (stop true (set_boot_partition p (ota_end h g).1).1
                    (set-boot p (ota_end h g).1 ∙ rw bad ended_boot)
                    (set-image p (boot_partition f) (ota_end h g).1 ∙ ended_image))
            | inl set ↦
                rw (k, new, set)
                  (record {
                    kept = λ q. cc;
                    same_boot = λ q. cc;
                    installed = λ _.
                        r
                        ∙ ap some (
                            sym (
                              ap (image (set_boot_partition p (ota_end h g).1).1)
                                (set-boot p (ota_end h g).1 ∙ rw set refl)
                              ∙ set-image p p (ota_end h g).1
                              ∙ end-image h p g
                              ∙ w));
                    reports = ground arith;
                  })
          ]
        ]
  ]
    where
      stop :
          (c : Bool) (x : Flash)
          → boot_partition x ≡ boot_partition f
          → image x (boot_partition f) ≡ image f (boot_partition f)
          → Installs d f (failed ops c x)
      stop c x = failed-Installs d c f x

      ended_boot : boot_partition (ota_end h g).1 ≡ boot_partition f
      ended_boot = end-boot h g ∙ sb

      ended_image : image (ota_end h g).1 (boot_partition f) ≡ image f (boot_partition f)
      ended_image = end-image h (boot_partition f) g ∙ si

  begun-Installs :
      (d : Download) (p h : ℕ) (f g : Flash)
      → boot_partition g ≡ boot_partition f
      → image g (boot_partition f) ≡ image f (boot_partition f)
      → target h g ≡ p
      → image g p ≡ []
      → p ≢ boot_partition f
      → Installs d f (write_update ops p d (esp_ok, h, g))
  unfolding write_update
  begun-Installs d p h f g sb si t empty n = elim (Bool-cases (write_received ops h d g).0) [
    | inl ok ↦
        let (b, r, i) = w.whole ok in
        rw ok (
          finish_update-Installs d h p f _ b same_boot same_image r (
            ap (image (write_received ops h d g).1) (sym t)
            ∙ i
            ∙ ap (λ x. x ++ b) (ap (image g) t ∙ empty)))
    | inr bad ↦ rw bad (failed-Installs d true f _ same_boot same_image)
  ]
    where
      w : Written ops h d g (write_received ops h d g)
      w = write_received-Written ops h d g

      same_boot : boot_partition (write_received ops h d g).1 ≡ boot_partition f
      same_boot = w.same_boot ∙ sb

      same_image :
          image (write_received ops h d g).1 (boot_partition f) ≡ image f (boot_partition f)
      same_image = w.others (boot_partition f) (λ e. n (sym t ∙ e)) ∙ si

  update-Installs :
      (d : Download) (f : Flash)
      → next_update_partition f ≢ boot_partition f
      → Installs d f
          (write_update ops (next_update_partition f) d (ota_begin (next_update_partition f) f))
  unfolding write_update
  update-Installs d f n = elim (Bool-cases (is_ok (ota_begin (next_update_partition f) f).0)) [
    | inl k ↦ rw k (
        begun-Installs d (next_update_partition f) _ f _ (begin-boot _ f) (begin-image_ne _ _ f n)
          (begin-target _ f k) (begin-image _ f k) n)
    | inr b ↦ rw b (failed-Installs d true f _ (begin-boot _ f) (begin-image_ne _ _ f n))
  ]

  -- An update is all or nothing, if the partition that it writes is not the one that boots: either
  -- the device restarts and starts the whole image that was downloaded, and the code is `ESP_OK`, or
  -- there is no restart and the code is not `ESP_OK`, the boot partition is the same and its image is unchanged.
  pub ota_commence-Installs :
      (basename : List ℕ) (server : List ℕ → HttpAnswers) (f : Flash)
      → next_update_partition f ≢ boot_partition f
      → Installs (server (update_url basename)).body f (ota_commence ops basename server f)
  unfolding ota_commence
  ota_commence-Installs basename server f n = elim (Bool-cases (length basename == 0)) [
    | inl e ↦ rw e (failed-Installs _ true f f refl refl)
    | inr e ↦ elim (Bool-cases (server (update_url basename)).initialised) [
      | inr i ↦ rw (e, i) (failed-Installs _ true f f refl refl)
      | inl i ↦ elim (Bool-cases (is_ok (server (update_url basename)).opened)) [
        | inr o ↦ rw (e, i, o) (failed-Installs _ true f f refl refl)
        | inl o ↦ rw (e, i, o) (update-Installs (server (update_url basename)).body f n)
      ]
    ]
  ]

abbrev pub is_some : Option (List ℕ) → Bool
is_some none = false
is_some (some _) = true

is_some->>= : (o : Option (List ℕ)) (b : List ℕ) → is_some (o >>= λ r. some (b ++ r)) ≡ is_some o
is_some->>= none b = refl
is_some->>= (some r) b = refl

module _ (ops : OtaOps) where
  -- The writes of one download, through a handle, succeed.
  abbrev pub Writes : ℕ → Download → ops.Flash → Type 0
  Writes h closed f = Unit
  Writes h lost f = Unit
  Writes h (part bytes rest) f =
      (is_ok (ops.ota_write h bytes f).0 ≡ true) × Writes h rest (ops.ota_write h bytes f).1

  write_received-is_some :
      (h : ℕ) (d : Download) (f : ops.Flash)
      → Writes h d f
      → (write_received ops h d f).0 ≡ is_some (received d)
  unfolding write_received received
  write_received-is_some h closed f w = refl
  write_received-is_some h lost f w = refl
  write_received-is_some h (part bytes rest) f w = ground (
    arith,
    write_received-is_some h rest (ops.ota_write h bytes f).1 w.1,
    is_some->>= (received rest) bytes,
    w.0,
  )

  -- The results of `esp_ota_begin` and `esp_ota_end` in an update.
  abbrev begun : ops.Flash → ℤ × ℕ × ops.Flash
  begun f = ops.ota_begin (ops.next_update_partition f) f

  abbrev ended : Download → ops.Flash → ℤ × ops.Flash
  ended d f = ops.ota_end (begun f).1 (write_received ops (begun f).1 d (begun f).2).1

  -- The update of one flash with one download, in which no operation of the flash fails and the image
  -- that was written is not the one that runs.
  pub record Smooth (d : Download) (f : ops.Flash) : Type 0 where
    pub begins : is_ok (begun f).0 ≡ true
    pub writes : Writes (begun f).1 d (begun f).2
    pub ends : is_ok (ended d f).0 ≡ true
    pub differs :
        ops.check_identity
          (ops.running_partition (ended d f).1)
          (ops.next_update_partition f)
          (ended d f).1
        ≡ false
    pub sets : is_ok (ops.set_boot_partition (ops.next_update_partition f) (ended d f).1).0 ≡ true

  -- Where no operation of the flash fails, a named image that is not the one that runs is installed
  -- and started exactly if its download does not break off.
  pub ota_commence-restarted :
      (basename : List ℕ) (server : List ℕ → HttpAnswers) (f : ops.Flash)
      → Smooth (server (update_url basename)).body f
      → 0 < length basename
      → (server (update_url basename)).initialised ≡ true
      → (server (update_url basename)).opened ≡ esp_ok
      → (ota_commence ops basename server f).restarted
        ≡ is_some (received (server (update_url basename)).body)
  unfolding ota_commence write_update finish_update
  ota_commence-restarted basename server f s named i o =
      let b = ops.ota_begin (ops.next_update_partition f) f in
      ground (
        arith,
        write_received-is_some b.1 (server (update_url basename)).body b.2 s.writes,
        s.begins,
        s.ends,
        s.sets,
        s.differs,
      )
