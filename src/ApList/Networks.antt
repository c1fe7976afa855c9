-- ===== src/ApList/Networks.antt =====
-- What `wifi_manager_filter_unique` promises: each network of the scan once, at its best signal.
use airu_v2_fw.Base.{
  ℕ, zero, suc, ◌-◌, ◌≡◌, ◌≢◌, refl, sym, ap, subst, ◌∙◌, arith, true, ◌&&◌, List, [], ◌∷◌, ◌++◌,
  Option, none, some, if◌then◌else◌, ◌==◌, length, Bool-cases, inl, inr,
}
use airu_v2_fw.Base.Bytes.{equal, equal_iff}
use airu_v2_fw.Base.Int.{ℤ, max_ℤ, max_ℤ_comm, max_ℤ_assoc}
use airu_v2_fw.ApList.{
  Ap, cleared, is_blank, same_network, take_rssi, absorb, merge, compact_from, filter_unique,
}
use airu_v2_fw.ApList.Compact.{
  named, named-AllNamed, AllNamed, AllBlank, Compacted, compact_from-Compacted,
}
use airu_v2_fw.ApList.Merge.{Distinct, merge-Distinct, length-absorb}

-- The better of two signals that may be absent.
abbrev pub join : Option ℤ → Option ℤ → Option ℤ
join none q = q
join (some p) none = some p
join (some p) (some q) = some (max_ℤ p q)

pub join_comm : (p q : Option ℤ) → join p q ≡ join q p
join_comm none none = refl
join_comm none (some q) = refl
join_comm (some p) none = refl
join_comm (some p) (some q) = ap some (max_ℤ_comm p q)

pub join_assoc : (p q r : Option ℤ) → join (join p q) r ≡ join p (join q r)
join_assoc none q r = refl
join_assoc (some p) none r = refl
join_assoc (some p) (some q) none = refl
join_assoc (some p) (some q) (some r) = ap some (max_ℤ_assoc p q r)

join_left_comm : (p q r : Option ℤ) → join p (join q r) ≡ join q (join p r)
join_left_comm p q r =
    sym (join_assoc p q r) ∙ ap (λ x. join x r) (join_comm p q) ∙ join_assoc q p r

-- The signal of a record, if it is of the network with that name and mode.
abbrev pub own : List ℕ → ℕ → Ap → Option ℤ
own ssid mode a = if equal a.ssid ssid && a.authmode == mode then some a.rssi else none

-- The best signal of a network in a list; `none` if the list has no record of it.
unfoldable pub strongest : List ℕ → ℕ → List Ap → Option ℤ
strongest ssid mode [] = none
strongest ssid mode (a ∷ l) = join (own ssid mode a) (strongest ssid mode l)

module _ (ssid : List ℕ) (mode : ℕ) (name : ssid ≢ []) where
  own_blank : (a : Ap) → is_blank a ≡ true → own ssid mode a ≡ none
  own_blank a h = ground (arith, equal_iff a.ssid ssid)

  own-take_rssi :
      (a b : Ap)
      → same_network a b ≡ true
      → own ssid mode (take_rssi a b) ≡ join (own ssid mode a) (own ssid mode b)
  unfolding same_network
  own-take_rssi a b h = ground (arith, equal_iff a.ssid b.ssid)

  own_pair :
      (a b : Ap) (rest : Option ℤ)
      → join
          (own ssid mode (if same_network a b then cleared else b))
          (join (own ssid mode (take_rssi a b)) rest)
        ≡ join (own ssid mode a) (join (own ssid mode b) rest)
  own_pair a b rest = elim (Bool-cases (same_network a b)) [
    | inl same ↦
        ap
          (λ t.
            join (own ssid mode (if t then cleared else b))
              (join (own ssid mode (take_rssi a b)) rest))
          same
        ∙ ap (λ x. join x (join (own ssid mode (take_rssi a b)) rest)) (own_blank cleared refl)
        ∙ ap (λ x. join x rest) (own-take_rssi a b same)
        ∙ join_assoc (own ssid mode a) (own ssid mode b) rest
    | inr other ↦ rw other (join_left_comm (own ssid mode b) (own ssid mode a) rest)
  ]

  -- Moving the signals of a network to its first record changes no best signal.
  strongest-absorb :
      (l : List Ap) (a : Ap)
      → join (own ssid mode (absorb a l).0) (strongest ssid mode (absorb a l).1)
        ≡ join (own ssid mode a) (strongest ssid mode l)
  unfolding absorb strongest
  strongest-absorb [] a = refl
  strongest-absorb (b ∷ l) a =
      join_left_comm (own ssid mode (absorb (take_rssi a b) l).0) _ _
      ∙ ap (join (own ssid mode (if same_network a b then cleared else b)))
          (strongest-absorb l (take_rssi a b))
      ∙ own_pair a b (strongest ssid mode l)

  strongest-merge : (n : ℕ) (l : List Ap) → strongest ssid mode (merge n l) ≡ strongest ssid mode l
  unfolding merge strongest
  strongest-merge zero l = refl
  strongest-merge (suc n) [] = refl
  strongest-merge (suc n) (a ∷ l) = elim (Bool-cases (is_blank a)) [
    | inl blank ↦ rw blank (ap (join (own ssid mode a)) (strongest-merge n l))
    | inr named ↦ rw named (
        ap (join (own ssid mode (absorb a l).0)) (strongest-merge n (absorb a l).1)
        ∙ strongest-absorb l a)
  ]

  strongest-named : (l : List Ap) → strongest ssid mode (named l) ≡ strongest ssid mode l
  unfolding strongest
  strongest-named [] = refl
  strongest-named (a ∷ l) = elim (Bool-cases (is_blank a)) [
    | inl blank ↦ rw blank (rw (own_blank a blank) (strongest-named l))
    | inr name ↦ rw name (ap (join (own ssid mode a)) (strongest-named l))
  ]

-- What the caller may rely on, of the scan `aps`, the array `out` and the new `*aps`.
pub record IsFiltered (aps out : List Ap) (count : ℕ) : Type 0 where
  pub front : List Ap
  pub gap : List Ap
  pub whole : out ≡ front ++ gap
  pub counted : count ≡ length front
  pub all_named : AllNamed front
  pub gap_blank : AllBlank gap
  pub distinct : Distinct front
  pub best :
      (ssid : List ℕ) (mode : ℕ) → ssid ≢ [] → strongest ssid mode front ≡ strongest ssid mode aps

length-merge : (n : ℕ) (l : List Ap) → length (merge n l) ≡ length l
unfolding merge
length-merge zero l = refl
length-merge (suc n) [] = refl
length-merge (suc n) (a ∷ l) =
    ground (arith, length-merge n l, length-merge n (absorb a l).1, length-absorb a l)

-- After `wifi_manager_filter_unique` the first `*aps` records are named, of pairwise different
-- networks, and each network of the scan with a name stands there at the best signal that the scan
-- saw of it; no other network does, and what is behind is blank.
pub filter_unique-IsFiltered :
    (aps : List Ap) → IsFiltered aps (filter_unique aps).0 (filter_unique aps).1
unfolding filter_unique
filter_unique-IsFiltered aps = record {
  front = named merged;
  gap = c.gap;
  whole = c.whole;
  counted = c.total;
  all_named = named-AllNamed merged;
  gap_blank = c.gap_blank;
  distinct = merge-Distinct (length aps - 1) aps (omega arith);
  best = λ ssid mode name.
      strongest-named ssid mode name merged ∙ strongest-merge ssid mode name (length aps - 1) aps;
}
  where
    merged : List Ap
    merged = merge (length aps - 1) aps

    c : Compacted (named merged) (
        compact_from
          (length aps)
          0
          (record { aplist = merged; first_free = none; total_unique = length aps }))
    c =
        subst
          (λ n.
            Compacted (named merged)
              (compact_from n 0 (record { aplist = merged; first_free = none; total_unique = n })))
          (length-merge (length aps - 1) aps) (compact_from-Compacted merged)
