-- ===== src/Sd/Packets.antt =====
-- What the files of main/sd_if.c hold: for each day, the packets that were stored.
use airu_v2_fw.Base.{
  ℕ, ◌≡◌, ◌≢◌, Bool, true, false, List, [], ◌∷◌, ◌++◌, length, ◌==◌, if◌then◌else◌, Option, none,
  some, All, arith, refl, sym, ap, subst, ◌∙◌, append_assoc, append-nil, Bool-cases, Option-cases,
  inl, inr, ◌&&◌,
}
use airu_v2_fw.Upload.Chunk.{take_all}
use airu_v2_fw.Nvs.{is_ok}
use airu_v2_fw.Sd.{FileSystem, or_empty, Date, file_name, sd_hdr, sd_write_data}
use airu_v2_fw.Sd.Dates.{IsDate, file_name-injective}

abbrev pub concat : List (List ℕ) → List ℕ
concat [] = []
concat (p ∷ ps) = p ++ concat ps

-- A day's file, from its packets: none without a packet.
unfoldable pub log_file : List (List ℕ) → Option (List ℕ)
log_file [] = none
log_file (p ∷ ps) = some (sd_hdr ++ concat (p ∷ ps))

-- A packet behind what is there.
abbrev pub appended : Option (List ℕ) → List ℕ → Option (List ℕ)
appended none p = some (sd_hdr ++ p)
appended (some b) p = some (b ++ p)

unfoldable pub same_date : Date → Date → Bool
same_date a b = a.year == b.year && (a.month == b.month && a.day == b.day)

same_date-eq : (a b : Date) → same_date a b ≡ true → a ≡ b
unfolding same_date
same_date-eq a b e =
    let y : a.year ≡ b.year = ground arith in
    let m : a.month ≡ b.month = ground arith in
    let d : a.day ≡ b.day = ground arith in λ i. record { year = y i; month = m i; day = d i }

same_date-ne : (a b : Date) → same_date a b ≡ false → a ≢ b
unfolding same_date
same_date-ne a b e p =
    let y = ap (λ x. x.year) p in
    let m = ap (λ x. x.month) p in let d = ap (λ x. x.day) p in ground arith

appended_all : Option (List ℕ) → List (List ℕ) → Option (List ℕ)
appended_all f [] = f
appended_all f (p ∷ ps) = appended_all (appended f p) ps

appended_all-some :
    (b : List ℕ) (ps : List (List ℕ)) → appended_all (some b) ps ≡ some (b ++ concat ps)
unfolding appended_all
appended_all-some b [] = ap some (sym (append-nil b))
appended_all-some b (p ∷ ps) =
    appended_all-some (b ++ p) ps ∙ ap some (append_assoc b p (concat ps))

appended_all-log_file : (ps : List (List ℕ)) → appended_all none ps ≡ log_file ps
unfolding appended_all log_file
appended_all-log_file [] = refl
appended_all-log_file (p ∷ ps) =
    appended_all-some (sd_hdr ++ p) ps ∙ ap some (append_assoc sd_hdr p (concat ps))

module _ (fs : FileSystem) where
  open fs use {Card}

  -- Writes one after the other.
  pub write_all : List (List ℕ × Date) → Card → Card
  write_all [] c = c
  write_all ((pkt, date) ∷ ws) c = write_all ws (sd_write_data fs pkt date c).1

  -- The packets of a date that were reported as stored, in their order.
  pub stored : Date → List (List ℕ × Date) → Card → List (List ℕ)
  stored d [] c = []
  stored d ((pkt, date) ∷ ws) c =
      let rest = stored d ws (sd_write_data fs pkt date c).1 in
      if is_ok (sd_write_data fs pkt date c).0 && same_date date d then pkt ∷ rest else rest

module _ (fs : FileSystem)
    (prints : (n b : List ℕ) (c : fs.Card) → (fs.print n b c).0 ≡ length b) where
  open fs use {
    Card, contents, open_append, print, open-contents, open-contents_ne, print-contents,
    print-contents_ne,
  }

  print_all :
      (n b : List ℕ) (c : Card) → contents (print n b c).1 n ≡ some (or_empty (contents c n) ++ b)
  print_all n b c =
      print-contents n b c ∙ rw (prints n b c, take_all (length b) b (omega arith)) refl

  pub sd_write_data-same :
      (pkt : List ℕ) (date : Date) (c : Card)
      → is_ok (sd_write_data fs pkt date c).0 ≡ true
      → contents (sd_write_data fs pkt date c).1 (file_name date)
        ≡ appended (contents c (file_name date)) pkt
  unfolding sd_write_data
  sd_write_data-same pkt date c k = elim (Option-cases (open_append (file_name date) c)) [
    | inl e ↦ absurd (ground arith)
    | inr (f, e) ↦ ground (
      arith,
      open-contents (file_name date) c f e,
      print_all (file_name date) pkt f,
      print_all (file_name date) sd_hdr f,
      print_all (file_name date) pkt (print (file_name date) sd_hdr f).1,
    )
  ]

  sd_write_data-other :
      (pkt : List ℕ) (date : Date) (n : List ℕ) (c : Card)
      → file_name date ≢ n
      → contents (sd_write_data fs pkt date c).1 n ≡ contents c n
  unfolding sd_write_data
  sd_write_data-other pkt date n c d = elim (Option-cases (open_append (file_name date) c)) [
    | inl e ↦ ground arith
    | inr (f, e) ↦ ground (
      arith,
      open-contents_ne (file_name date) n c f e d,
      print-contents_ne (file_name date) n pkt f d,
      print-contents_ne (file_name date) n sd_hdr f d,
      print-contents_ne (file_name date) n pkt (print (file_name date) sd_hdr f).1 d,
    )
  ]

  sd_write_data-failed :
      (pkt : List ℕ) (date : Date) (c : Card)
      → is_ok (sd_write_data fs pkt date c).0 ≡ false
      → (sd_write_data fs pkt date c).1 ≡ c
  unfolding sd_write_data
  sd_write_data-failed pkt date c k = elim (Option-cases (open_append (file_name date) c)) [
    | inl e ↦ ground arith
    | inr (f, e) ↦ absurd (ground arith)
  ]

  write_all-appended :
      (d : Date) (ws : List (List ℕ × Date)) (c : Card)
      → IsDate d
      → All (λ (w : List ℕ × Date). IsDate w.1) ws
      → contents (write_all fs ws c) (file_name d)
        ≡ appended_all (contents c (file_name d)) (stored fs d ws c)
  unfolding write_all stored appended_all
  write_all-appended d [] c hd h = refl
  write_all-appended d ((pkt, date) ∷ ws) c hd h =
      let ih = write_all-appended d ws (sd_write_data fs pkt date c).1 hd h.1 in
      elim (Bool-cases (is_ok (sd_write_data fs pkt date c).0)) [
        | inr bad ↦ rw bad (ih ∙ rw (sd_write_data-failed pkt date c bad) refl)
        | inl k ↦ elim (Bool-cases (same_date date d)) [
          | inl s ↦
              rw (k, s)
                (ih
                  ∙ ap (λ f. appended_all f (stored fs d ws (sd_write_data fs pkt date c).1))
                      (subst
                        (λ x.
                          contents (sd_write_data fs pkt date c).1 (file_name x)
                          ≡ appended (contents c (file_name x)) pkt)
                        (same_date-eq date d s) (sd_write_data-same pkt date c k)))
          | inr s ↦
              rw (k, s)
                (ih
                  ∙ ap (λ f. appended_all f (stored fs d ws (sd_write_data fs pkt date c).1))
                      (sd_write_data-other pkt date (file_name d) c
                        (λ e. same_date-ne date d s (file_name-injective date d h.0 hd e))))
        ]
      ]

  -- From a card with no file for a day, and while every print writes all its bytes, the file of
  -- the day is the header and the packets of that day that were reported as stored, in their order,
  -- however the writes of other days and the failures are mixed in; without such a packet there is
  -- no file.
  pub write_all-log_file :
      (d : Date) (ws : List (List ℕ × Date)) (c : Card)
      → IsDate d
      → All (λ (w : List ℕ × Date). IsDate w.1) ws
      → contents c (file_name d) ≡ none
      → contents (write_all fs ws c) (file_name d) ≡ log_file (stored fs d ws c)
  write_all-log_file d ws c hd h e =
      write_all-appended d ws c hd h
      ∙ ap (λ f. appended_all f (stored fs d ws c)) e
      ∙ appended_all-log_file (stored fs d ws c)
