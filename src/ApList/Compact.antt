-- ===== src/ApList/Compact.antt =====
-- The second loop moves the records with a name to the front, in their order.
use airu_v2_fw.Base.{
  ℕ, zero, suc, ◌+◌, ◌≡◌, refl, sym, ap, ◌∙◌, arith, true, false, List, [], ◌∷◌, ◌++◌, Option, none,
  some, if◌then◌else◌, length, get_or, set, length-append, set_append, get_or_append, append_assoc,
  append-nil, All, All-append, Bool-cases, inl, inr,
}
use airu_v2_fw.ApList.{
  Ap, cleared, is_blank, Scan, find_free, compact_step, compact_from, or_else, move_to,
}

abbrev pub AllBlank : List Ap → Type 0
AllBlank = All (λ a. is_blank a ≡ true)

abbrev pub AllNamed : List Ap → Type 0
AllNamed = All (λ a. is_blank a ≡ false)

-- The records with a name.
abbrev pub named : List Ap → List Ap
named [] = []
named (a ∷ l) = if is_blank a then named l else a ∷ named l

pub named-AllNamed : (l : List Ap) → AllNamed (named l)
named-AllNamed [] = tt
named-AllNamed (a ∷ l) = ground (arith, named-AllNamed l)

find_free_append :
    (kept rest : List Ap) (b : Ap) (j : ℕ)
    → AllNamed kept
    → is_blank b ≡ true
    → find_free j (kept ++ (b ∷ rest)) ≡ some (j + length kept)
unfolding find_free
find_free_append [] rest b j k h = ground arith
find_free_append (a ∷ kept) rest b j k h =
    ground (arith, find_free_append kept rest b (j + 1) k.1 h)

-- The free slot is the first behind the records kept so far.
abbrev slot : List Ap → List Ap → Option ℕ
slot kept [] = none
slot kept (_ ∷ _) = some (length kept)

slot_extend :
    (kept gap : List Ap) (a : Ap) (i : ℕ)
    → i ≡ length kept + length gap
    → or_else (slot kept gap) (some i) ≡ slot kept (gap ++ (a ∷ []))
slot_extend kept [] a i e = ground arith
slot_extend kept (_ ∷ _) a i e = refl

-- Before the round for the head of `rest` the array is `kept`, then a gap, then `rest`.
record Parted (kept gap rest : List Ap) (i : ℕ) (s : Scan) : Type 0 where
  whole : s.aplist ≡ kept ++ (gap ++ rest)
  here : i ≡ length kept + length gap
  free : s.first_free ≡ slot kept gap
  total : s.total_unique ≡ length kept + length rest
  kept_named : AllNamed kept
  gap_blank : AllBlank gap

module _ (kept gap rest : List Ap) (a : Ap) (i : ℕ) (s : Scan)
    (p : Parted kept gap (a ∷ rest) i s) where
  reads : get_or s.aplist i cleared ≡ a
  reads = rw p.whole (
      rw (← append_assoc kept gap (a ∷ rest)) (
        get_or_append (kept ++ gap) rest a cleared i
          (omega (arith, p.here, length-append kept gap))))

  Parted-blank : is_blank a ≡ true → Parted kept (gap ++ (a ∷ [])) rest (i + 1) (compact_step i s)
  unfolding compact_step
  Parted-blank h =
      rw (reads, compact_step)
        (rw h (record {
          whole = p.whole ∙ ap (◌++◌ kept) (sym (append_assoc gap (a ∷ []) rest));
          here = omega (arith, p.here, length-append gap (a ∷ []));
          free = ap (λ o. or_else o (some i)) p.free ∙ slot_extend kept gap a i p.here;
          total = omega (arith, p.total);
          kept_named = p.kept_named;
          gap_blank = All-append _ gap (a ∷ []) p.gap_blank (h, tt);
        }))

module _ (kept rest : List Ap) (a : Ap) (i : ℕ) (s : Scan) where
  -- With no gap the record stays where it is.
  Parted-stay :
      Parted kept [] (a ∷ rest) i s
      → is_blank a ≡ false
      → Parted (kept ++ (a ∷ [])) [] rest (i + 1) (compact_step i s)
  unfolding compact_step
  Parted-stay p h =
      rw (reads kept [] rest a i s p, compact_step)
        (rw h (
          rw (p.free, move_to)
            (record {
              whole = p.whole ∙ sym (append_assoc kept (a ∷ []) rest);
              here = omega (arith, p.here, length-append kept (a ∷ []));
              free = refl;
              total = omega (arith, p.total, length-append kept (a ∷ []));
              kept_named = All-append _ kept (a ∷ []) p.kept_named (h, tt);
              gap_blank = tt;
            })))

module _ (kept gap rest : List Ap) (g a : Ap) (i : ℕ) (s : Scan) where
  -- With a gap the record goes to its first slot, and the gap moves on by one.
  moved_lem :
      Parted kept (g ∷ gap) (a ∷ rest) i s
      → set (set s.aplist (length kept) a) i cleared
        ≡ (kept ++ (a ∷ [])) ++ ((gap ++ (cleared ∷ [])) ++ rest)
  moved_lem p = rw p.whole (
      rw (set_append kept (gap ++ (a ∷ rest)) g a (length kept) refl) (
        ap (λ l. set l i cleared) (simp append_assoc)
        ∙ set_append (kept ++ (a ∷ gap)) rest a cleared i
            (omega (arith, p.here, length-append kept (a ∷ gap)))
        ∙ simp append_assoc))

  find_gap :
      (kept' gap' : List Ap)
      → AllNamed kept'
      → AllBlank gap'
      → find_free 0 (kept' ++ ((gap' ++ (cleared ∷ [])) ++ rest)) ≡ some (length kept')
  find_gap kept' [] k b = find_free_append kept' rest cleared 0 k refl ∙ ap some (omega arith)
  find_gap kept' (h ∷ t) k b =
      find_free_append kept' ((t ++ (cleared ∷ [])) ++ rest) h 0 k b.0 ∙ ap some (omega arith)

  slot_moved : (kept' gap' : List Ap) → slot kept' (gap' ++ (cleared ∷ [])) ≡ some (length kept')
  slot_moved kept' [] = refl
  slot_moved kept' (_ ∷ _) = refl

  Parted-move :
      Parted kept (g ∷ gap) (a ∷ rest) i s
      → is_blank a ≡ false
      → Parted (kept ++ (a ∷ [])) (gap ++ (cleared ∷ [])) rest (i + 1) (compact_step i s)
  unfolding compact_step
  Parted-move p h =
      rw (reads kept (g ∷ gap) rest a i s p, compact_step)
        (rw h (
          rw (p.free, move_to)
            (rw (reads kept (g ∷ gap) rest a i s p) (
              rw (moved_lem p) (record {
                whole = refl;
                here =
                    omega (
                      arith,
                      p.here,
                      length-append kept (a ∷ []),
                      length-append gap (cleared ∷ []),
                    );
                free = rw (found, slot_moved (kept ++ (a ∷ [])) gap);
                total = omega (arith, p.total, length-append kept (a ∷ []));
                kept_named = named_kept;
                gap_blank = All-append _ gap (cleared ∷ []) p.gap_blank.1 (refl, tt);
              })))))
    where
      named_kept : AllNamed (kept ++ (a ∷ []))
      named_kept = All-append _ kept (a ∷ []) p.kept_named (h, tt)

      found :
          find_free 0 ((kept ++ (a ∷ [])) ++ ((gap ++ (cleared ∷ [])) ++ rest))
          ≡ some (length (kept ++ (a ∷ [])))
      found = find_gap (kept ++ (a ∷ [])) gap named_kept p.gap_blank.1

Parted-named :
    (kept rest : List Ap) (a : Ap) (i : ℕ) (s : Scan) (gap : List Ap)
    → Parted kept gap (a ∷ rest) i s
    → is_blank a ≡ false
    → (gap' : List Ap) × Parted (kept ++ (a ∷ [])) gap' rest (i + 1) (compact_step i s)
Parted-named kept rest a i s [] p h = ([], Parted-stay kept rest a i s p h)
Parted-named kept rest a i s (g ∷ gap) p h =
    (gap ++ (cleared ∷ []), Parted-move kept gap rest g a i s p h)

-- What the loop leaves: the records with a name in their order, then blank ones.
pub record Compacted (front : List Ap) (s : Scan) : Type 0 where
  pub gap : List Ap
  pub whole : s.aplist ≡ front ++ gap
  pub gap_blank : AllBlank gap
  pub total : s.total_unique ≡ length front

Parted-Compacted :
    (rest kept gap : List Ap) (i n : ℕ) (s : Scan)
    → n ≡ length rest
    → Parted kept gap rest i s
    → Compacted (kept ++ named rest) (compact_from n i s)
unfolding compact_from
Parted-Compacted [] kept gap i zero s e p = record {
  gap = gap;
  whole = simp (append-nil) (simp append-nil at p.whole);
  gap_blank = p.gap_blank;
  total = simp append-nil (omega (arith, p.total));
}
Parted-Compacted [] kept gap i (suc n) s e p = absurd (omega arith)
Parted-Compacted (a ∷ rest) kept gap i zero s e p = absurd (omega arith)
Parted-Compacted (a ∷ rest) kept gap i (suc n) s e p = elim (Bool-cases (is_blank a)) [
  | inl blank ↦ rw blank (
      Parted-Compacted rest kept (gap ++ (a ∷ [])) (i + 1) n (compact_step i s) (omega arith)
        (Parted-blank kept gap rest a i s p blank))
  | inr name ↦
      let (gap', q) = Parted-named kept rest a i s gap p name in
      rw name (
        rw (← append_assoc kept (a ∷ []) (named rest)) (
          Parted-Compacted rest (kept ++ (a ∷ [])) gap' (i + 1) n (compact_step i s) (omega arith)
            q))
]

-- The whole second loop, on any array.
pub compact_from-Compacted :
    (aps : List Ap)
    → Compacted (named aps) (
        compact_from
          (length aps)
          0
          (record { aplist = aps; first_free = none; total_unique = length aps }))
compact_from-Compacted aps = Parted-Compacted aps [] [] 0 (length aps) _ refl (record {
  whole = refl;
  here = omega arith;
  free = refl;
  total = omega arith;
  kept_named = tt;
  gap_blank = tt;
})
