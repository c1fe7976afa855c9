-- ===== src/Wifi/Registration.antt =====
-- main/wifi_manager.c: the user's name and address in flash, saved as the whole arrays of
-- `struct registration_info_t` and fetched through a buffer of 254 bytes.
use airu_v2_fw.Base.{
  ℕ, ◌≡◌, refl, sym, ap, ◌∙◌, arith, Bool, true, false, ◌&&◌, List, ◌++◌, Option, none, some, ltb,
  leb, Option-cases, inl, inr, if◌then◌else◌, length, drop, set,
}
use airu_v2_fw.Base.Memory.{◌>>=◌}
use airu_v2_fw.Base.Int.{ℤ, pos}
use airu_v2_fw.Nvs.{Nvs, chained, get-set, get-set_ne, get-commit, name, email, is_ok, ◌>>>◌}

-- The arrays `reg_info.name` and `reg_info.email`, of 64 and 254 bytes.
pub record RegInfo : Type 0 where
  pub name : List ℕ
  pub email : List ℕ

-- `memcpy` of bytes to the start of an array.
abbrev over : List ℕ → List ℕ → List ℕ
over blob array = blob ++ drop (length blob) array

-- `buff[sz] = '\0'`, with the bytes that were read in the 254 bytes of `buff`, and their copy to an
-- array; `none` is a write behind one of the two.
unfoldable copied_blob : List ℕ → List ℕ → Option (List ℕ)
copied_blob blob array =
    if ltb (length blob) 254 && leb (length blob) (length array)
    then some (over blob array)
    else none

module _ (nvs : Nvs) where
  open nvs use {Store, open_for, set_blob, commit, get_blob}

  -- `wifi_manager_save_reg_config`
  unfoldable pub save_reg_config : RegInfo → Store → ℤ × Store
  save_reg_config info s =
      (open_for true s, s)
      >>> (λ s. set_blob s name info.name)
      >>> (λ s. set_blob s email info.email)
      >>> commit
      >>> λ s. (pos 0, s)

  -- `wifi_manager_fetch_reg_config`: both arrays start with NUL first; both blobs are read with the
  -- size of the address. `none` is a write behind an array.
  unfoldable pub fetch_reg_config : RegInfo → Store → Option (Bool × RegInfo)
  unfolding copied_blob
  fetch_reg_config info s =
      let blank : RegInfo = record { name = set info.name 0 0; email = set info.email 0 0 } in
      let stored_name = get_blob s name 254 in
      let stored_email = get_blob s email 254 in
      if is_ok (open_for false s)
      then (if is_ok stored_name.0
          then (copied_blob stored_name.1 blank.name >>= λ n.
              let named : RegInfo = record blank { name = n } in
              if is_ok stored_email.0
              then (copied_blob stored_email.1 named.email >>= λ e.
                  some (true, record named { email = e }))
              else some (false, named))
          else some (false, blank))
      else some (false, blank)

  -- What a registration that was saved leaves for a fetch.
  pub get-saved_email :
      (info : RegInfo) (s t : Store)
      → length info.email ≡ 254
      → save_reg_config info s ≡ (pos 0, t)
      → get_blob t email 254 ≡ (pos 0, info.email)
  unfolding save_reg_config
  get-saved_email info s t he saved =
      let w1 : Store → ℤ × Store = λ s. set_blob s name info.name in
      let w2 : Store → ℤ × Store = λ s. set_blob s email info.email in
      let r1 : ℤ × Store = (open_for true s, s) >>> w1 in
      let r2 = r1 >>> w2 in
      let c4 = chained (r2 >>> commit) (λ s. (pos 0, s)) t saved in
      let c3 = chained r2 commit c4.between c4.first in
      let c2 = chained r1 w2 c3.between c3.first in
      ap (λ r. get_blob r.1 email 254) (sym c4.second)
      ∙ get-commit nvs c3.between c4.between email 254 c3.second
      ∙ get-set nvs c2.between c3.between email info.email 254 c2.second (omega arith)

  pub get-saved_name :
      (info : RegInfo) (s t : Store)
      → length info.name ≡ 64
      → save_reg_config info s ≡ (pos 0, t)
      → get_blob t name 254 ≡ (pos 0, info.name)
  unfolding save_reg_config
  get-saved_name info s t hn saved =
      let w1 : Store → ℤ × Store = λ s. set_blob s name info.name in
      let w2 : Store → ℤ × Store = λ s. set_blob s email info.email in
      let r1 : ℤ × Store = (open_for true s, s) >>> w1 in
      let r2 = r1 >>> w2 in
      let c4 = chained (r2 >>> commit) (λ s. (pos 0, s)) t saved in
      let c3 = chained r2 commit c4.between c4.first in
      let c2 = chained r1 w2 c3.between c3.first in
      let c1 = chained (open_for true s, s) w1 c2.between c2.first in
      ap (λ r. get_blob r.1 name 254) (sym c4.second)
      ∙ get-commit nvs c3.between c4.between name 254 c3.second
      ∙ get-set_ne nvs c2.between c3.between email name info.email 254 c2.second (ground arith)
      ∙ get-set nvs c1.between c2.between name info.name 254 c1.second (omega arith)

  full_address : (blob array : List ℕ) → length blob ≡ 254 → copied_blob blob array ≡ none
  unfolding copied_blob
  full_address blob array h = ground arith

  -- Once a registration was saved, with its arrays of 64 and 254 bytes, a fetch from flash that is
  -- readable writes behind its buffer, whatever the arrays hold: the NUL that it puts behind the
  -- address is byte 255 of 254.
  pub fetch_reg_config-save_reg_config :
      (info old : RegInfo) (s t : Store)
      → length info.name ≡ 64
      → length info.email ≡ 254
      → save_reg_config info s ≡ (pos 0, t)
      → open_for false t ≡ pos 0
      → fetch_reg_config old t ≡ none
  unfolding fetch_reg_config
  fetch_reg_config-save_reg_config info old s t hn he saved opens =
      rw (opens, get-saved_name info s t hn saved, get-saved_email info s t he saved)
        (elim (Option-cases (copied_blob info.name (set old.name 0 0))) [
          | inl e ↦ rw e refl
          | inr (n, e) ↦ rw (e, full_address info.email (set old.email 0 0) he) refl
        ])
