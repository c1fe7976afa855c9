-- ===== src/Wifi/Documents/Registered.antt =====
-- The document of the registration in main/wifi_manager.c, and when it fits its buffer.
use airu_v2_fw.Base.{
  ℕ, ◌+◌, ◌*◌, ◌<◌, ◌≤◌, ◌≡◌, Bool, List, [], ◌∷◌, ◌++◌, length, codes, replicate, ◌⊎◌, inl, inr,
  refl, sym, ap, subst, ◌∙◌, length-append, arith, if◌then◌else◌, Option, none,
}
use airu_v2_fw.Base.Memory.{◌>>=◌, >>=-assoc, >>=-assoc_three}
use airu_v2_fw.Json.Escape.{escaped}
use airu_v2_fw.Json.Buffer.{strcat, print_json, literal, NoNul, Holds, Builds}
use airu_v2_fw.Json.Building.{Builds-result, build_three, zeros-Builds, length-literal}
use airu_v2_fw.Wifi.Documents.{
  reg_info_tail, colons, colons_behind, hex_byte, generate_reg_info_json, json_reg_info_size,
}
use airu_v2_fw.Wifi.Documents.Contents.{NoNul-append}

-- Bytes of an address, as `%02X` prints them.
NoNul-hex_byte : (b : ℕ) → NoNul (hex_byte b)
NoNul-hex_byte b = ground arith

NoNul-colons_behind : (bs : List ℕ) → NoNul (colons_behind bs)
unfolding colons_behind
NoNul-colons_behind [] = tt
NoNul-colons_behind (b ∷ bs) =
    (omega arith, NoNul-append (hex_byte b) _ (NoNul-hex_byte b) (NoNul-colons_behind bs))

NoNul-colons : (bs : List ℕ) → NoNul (colons bs)
unfolding colons
NoNul-colons [] = tt
NoNul-colons (b ∷ bs) = NoNul-append (hex_byte b) _ (NoNul-hex_byte b) (NoNul-colons_behind bs)

length-colons_behind : (bs : List ℕ) → length (colons_behind bs) ≡ 3 * length bs
unfolding colons_behind
length-colons_behind [] = refl
length-colons_behind (b ∷ bs) = omega (arith, length-colons_behind bs)

length-colons : (bs : List ℕ) → length bs ≡ 6 → length (colons bs) ≡ 17
unfolding colons
length-colons [] h = absurd (omega arith)
length-colons (b ∷ bs) h = omega (arith, length-colons_behind bs)

NoNul-reg_info_tail : (hidden : Bool) (mac : List ℕ) → NoNul (reg_info_tail hidden mac)
unfolding reg_info_tail
NoNul-reg_info_tail hidden mac =
    NoNul-append (codes ",\"mapVisibility\":")
      ((if hidden then b'0' else b'1')
        ∷ (codes ",\"macAddress\":\"" ++ (colons mac ++ codes "\"}")))
      (omega arith)
      (
        ground arith,
        NoNul-append (codes ",\"macAddress\":\"") (colons mac ++ codes "\"}") (omega arith)
            (NoNul-append (colons mac) (codes "\"}") (NoNul-colons mac) (omega arith)),
      )

length-reg_info_tail :
    (hidden : Bool) (mac : List ℕ) → length mac ≡ 6 → length (reg_info_tail hidden mac) ≡ 52
unfolding reg_info_tail
length-reg_info_tail hidden mac h = omega (arith, length-append {A = ℕ}, length-colons mac h)

-- The document of a registration.
pub reg_info_text : (name email : List ℕ) → Bool → List ℕ → List ℕ
reg_info_text name email hidden mac =
    (codes "{\"name\":" ++ (literal name ++ codes ",\"email\":"))
    ++ (literal email ++ reg_info_tail hidden mac)

generate_reg_info_json-Builds :
    (n : ℕ) (name email : List ℕ) (hidden : Bool) (mac m : List ℕ)
    → length m ≡ n
    → 0 < n
    → Builds n
        (reg_info_text name email hidden mac)
        (generate_reg_info_json name email hidden mac m)
unfolding generate_reg_info_json reg_info_text
generate_reg_info_json-Builds n name email hidden mac m e p =
    subst (Builds n (reg_info_text name email hidden mac))
      (ap (λ o. o >>= end) (sym (>>=-assoc start (print_json name) (strcat (codes ",\"email\":"))))
        ∙ >>=-assoc_three start (print_json name) (strcat (codes ",\"email\":")) end)
      (build_three n (codes "{\"name\":" ++ (literal name ++ codes ",\"email\":")) email
        (reg_info_tail hidden mac) _ (NoNul-reg_info_tail hidden mac)
        (build_three n (codes "{\"name\":") name (codes ",\"email\":") start (omega arith)
          (rw e (zeros-Builds n (codes "{\"name\":") (omega arith) p))))
  where
    start : Option (List ℕ)
    start = strcat (codes "{\"name\":") (replicate {A = ℕ} (length m) 0)

    end : List ℕ → Option (List ℕ)
    end m3 = print_json email m3 >>= strcat (reg_info_tail hidden mac)

length-reg_info_text :
    (name email : List ℕ) (hidden : Bool) (mac : List ℕ)
    → length mac ≡ 6
    → length (reg_info_text name email hidden mac)
      ≡ 73 + length (escaped name) + length (escaped email)
unfolding reg_info_text
length-reg_info_text name email hidden mac h = omega (
  arith,
  length-append (literal name ++ codes ",\"email\":") (literal email ++ reg_info_tail hidden mac),
  length-append (literal name) (codes ",\"email\":"),
  length-append (literal email) (reg_info_tail hidden mac),
  length-literal name,
  length-literal email,
  length-reg_info_tail hidden mac h,
)

-- The generator of the registration's document writes the reference text with its NUL if the name
-- and the address, escaped, have at most 295 bytes together, and leaves its buffer otherwise.
pub generate_reg_info_json-result :
    (name email : List ℕ) (hidden : Bool) (mac m : List ℕ)
    → length mac ≡ 6
    → length m ≡ json_reg_info_size
    → ((length (escaped name) + length (escaped email) ≤ 295)
        × Holds json_reg_info_size
            (reg_info_text name email hidden mac)
            (generate_reg_info_json name email hidden mac m))
      ⊎ ((295 < length (escaped name) + length (escaped email))
          × (generate_reg_info_json name email hidden mac m ≡ none))
generate_reg_info_json-result name email hidden mac m h e =
    elim (Builds-result json_reg_info_size _ _
      (generate_reg_info_json-Builds json_reg_info_size name email hidden mac m e (omega arith))) [
        | inl f ↦ inl (omega (arith, f.0, length-reg_info_text name email hidden mac h), f.1)
        | inr o ↦ inr (omega (arith, o.0, length-reg_info_text name email hidden mac h), o.1)
      ]
