-- ===== src/ApList.antt =====
-- main/wifi_manager.c: `wifi_manager_filter_unique`, on the records of one scan. The list is the
-- first `*aps` records of the array; an SSID is its bytes before the NUL. Of a record the fields are
-- kept that the firmware reads. The call of `esp_wifi_deinit` at the end is a driver call and
-- changes none of this.
pub mod Compact
pub mod Merge
pub mod Networks
use airu_v2_fw.Base.{
  ℕ, zero, suc, ◌+◌, ◌-◌, Bool, true, false, ◌&&◌, List, [], ◌∷◌, Option, none, some, ◌==◌,
  if◌then◌else◌, length, get_or, set,
}
use airu_v2_fw.Base.Bytes.{equal}
use airu_v2_fw.Base.Int.{ℤ, pos, max_ℤ}

-- `wifi_ap_record_t`
pub record Ap : Type 0 where
  pub ssid : List ℕ
  pub primary : ℕ
  pub rssi : ℤ
  pub authmode : ℕ

-- What `memset(ap, 0, …)` leaves.
abbrev pub cleared : Ap
cleared = record { ssid = []; primary = 0; rssi = pos 0; authmode = 0 }

-- `ap->ssid[0] == 0`
abbrev pub is_blank : Ap → Bool
is_blank ap = elim ap.ssid [ [] ↦ true | _ ∷ _ ↦ false ]

-- The same SSID and authentication mode.
unfoldable pub same_network : Ap → Ap → Bool
same_network a b = equal a.ssid b.ssid && a.authmode == b.authmode

-- `ap` takes a better `rssi` from a record of its network.
abbrev pub take_rssi : Ap → Ap → Ap
take_rssi ap ap1 = if same_network ap ap1 then record ap { rssi = max_ℤ ap.rssi ap1.rssi } else ap

-- The loop over `j`: records of the network of `ap` are cleared, and `ap` takes the best `rssi`.
pub absorb : Ap → List Ap → Ap × List Ap
absorb ap [] = (ap, [])
absorb ap (ap1 ∷ rest) =
    let same = same_network ap ap1 in
    let (ap', rest') = absorb (take_rssi ap ap1) rest in
    (ap', (if same then cleared else ap1) ∷ rest')

-- The first loop over `i`, for that many rounds.
pub merge : ℕ → List Ap → List Ap
merge zero aps = aps
merge (suc n) [] = []
merge (suc n) (ap ∷ rest) =
    if is_blank ap then ap ∷ merge n rest else ((absorb ap rest).0 ∷ merge n (absorb ap rest).1)

-- The variables of the second loop; the pointer `first_free` is an index.
pub record Scan : Type 0 where
  pub aplist : List Ap
  pub first_free : Option ℕ
  pub total_unique : ℕ

-- The search for the next free slot, from index `j`.
pub find_free : ℕ → List Ap → Option ℕ
find_free j [] = none
find_free j (ap ∷ rest) = if is_blank ap then some j else find_free (j + 1) rest

abbrev or_else : Option ℕ → Option ℕ → Option ℕ
or_else none o = o
or_else (some j) o = some j

-- `ap` moves to the free slot, its own is cleared, and the next free slot is looked up.
abbrev move_to : Option ℕ → ℕ → Scan → Scan
move_to none i s = s
move_to (some free) i s =
    let moved = set (set s.aplist free (get_or s.aplist i cleared)) i cleared in
    record s { aplist = moved; first_free = or_else (find_free 0 moved) s.first_free }

-- The body of the second loop.
pub compact_step : ℕ → Scan → Scan
unfolding find_free
compact_step i s =
    if is_blank (get_or s.aplist i cleared)
    then record s { first_free = or_else s.first_free (some i); total_unique = s.total_unique - 1 }
    else move_to s.first_free i s

-- The second loop, with that many rounds left.
pub compact_from : ℕ → ℕ → Scan → Scan
unfolding compact_step
compact_from zero i s = s
compact_from (suc n) i s = compact_from n (i + 1) (compact_step i s)

-- The array afterwards, and the new `*aps`. `*aps - 1` is signed, so no record means no round.
unfoldable pub filter_unique : List Ap → List Ap × ℕ
unfolding absorb merge compact_from
filter_unique aps =
    let s = compact_from (length aps) 0 (record {
      aplist = merge (length aps - 1) aps;
      first_free = none;
      total_unique = length aps;
    }) in
    (s.aplist, s.total_unique)
