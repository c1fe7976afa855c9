-- ===== src/Ota/Writing.antt =====
-- What the loop of main/ota_if.c that writes an image leaves in the flash.
use airu_v2_fw.Base.{
  ℕ, ◌≡◌, ◌≢◌, Bool, true, List, [], ◌++◌, length, ◌==◌, if◌then◌else◌, refl, sym, ap, ◌∙◌,
  Bool-cases, inl, inr, append-nil, append_assoc, Option, some, none,
}
use airu_v2_fw.Base.Memory.{◌>>=◌}
use airu_v2_fw.Nvs.{is_ok}
use airu_v2_fw.Ota.{OtaOps, Download, closed, lost, part, write_received}

-- The whole image that a download carries: none, if it breaks off.
unfoldable pub received : Download → Option (List ℕ)
received closed = some []
received lost = none
received (part bytes rest) =
    let more = received rest in
    if length bytes == 0 then some [] else (more >>= λ r. some (bytes ++ r))

module _ (ops : OtaOps) where
  open ops use {
    Flash, boot_partition, next_update_partition, image, ota_write, target, write-boot, write-image,
    write-image_ne, write-target, ota_begin, ota_end, set_boot_partition, check_identity,
    running_partition, begin-boot, begin-target, begin-image, begin-image_ne, end-boot, end-image,
    set-boot, set-image,
  }

  -- What the loop leaves: the boot partition as it was, other partitions as they were, and, if it
  -- came to the end, the whole image behind what was there.
  pub record Written (h : ℕ) (d : Download) (f : Flash) (r : Bool × Flash) : Type 0 where
    pub same_boot : boot_partition r.1 ≡ boot_partition f
    pub others : (q : ℕ) → target h f ≢ q → image r.1 q ≡ image f q
    pub whole :
        r.0 ≡ true
        → (b : List ℕ) × (received d ≡ some b)
          × (image r.1 (target h f) ≡ image f (target h f) ++ b)

  part-Written :
      (h : ℕ) (bytes : List ℕ) (rest : Download) (f : Flash)
      → Written h rest (ota_write h bytes f).1 (write_received ops h rest (ota_write h bytes f).1)
      → Written h (part bytes rest) f (write_received ops h (part bytes rest) f)
  unfolding write_received received
  part-Written h bytes rest f ih = elim (Bool-cases (length bytes == 0)) [
    | inl e ↦ rw e (record {
      same_boot = refl;
      others = λ q n. refl;
      whole = λ w. ([], rw e refl, sym (append-nil _));
    })
    | inr n ↦ elim (Bool-cases (is_ok (ota_write h bytes f).0)) [
      | inl k ↦
          rw (n, k)
            (record {
              same_boot = ih.same_boot ∙ write-boot h bytes f;
              others = λ q d.
                  ih.others q (λ e. d (sym (write-target h h bytes f) ∙ e))
                  ∙ write-image_ne h q bytes f d;
              whole = λ w.
                  let (b, r, i) = ih.whole w in
                  (
                    bytes ++ b,
                    rw (n, r) refl,
                    ap (image (write_received ops h rest (ota_write h bytes f).1).1)
                          (sym (write-target h h bytes f))
                        ∙ i
                        ∙ ap (λ t. t ++ b)
                            (ap (image (ota_write h bytes f).1) (write-target h h bytes f)
                              ∙ write-image h bytes f k)
                        ∙ append_assoc (image f (target h f)) bytes b,
                  );
            })
      | inr k ↦
          rw (n, k)
            (record {
              same_boot = write-boot h bytes f;
              others = λ q d. write-image_ne h q bytes f d;
              whole = λ w. cc;
            })
    ]
  ]

  pub write_received-Written :
      (h : ℕ) (d : Download) (f : Flash) → Written h d f (write_received ops h d f)
  unfolding write_received received
  write_received-Written h closed f = record {
    same_boot = refl;
    others = λ q n. refl;
    whole = λ e. ([], refl, sym (append-nil _));
  }
  write_received-Written h lost f = record {
    same_boot = refl;
    others = λ q n. refl;
    whole = λ e. cc;
  }
  write_received-Written h (part bytes rest) f =
      part-Written h bytes rest f (write_received-Written h rest (ota_write h bytes f).1)
