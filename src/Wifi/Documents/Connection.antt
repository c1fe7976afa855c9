-- ===== src/Wifi/Documents/Connection.antt =====
-- The document of the connection in main/wifi_manager.c, and when it fits its buffer.
use airu_v2_fw.Base.{
  ℕ, ◌+◌, ◌<◌, ◌≤◌, ◌≡◌, List, ◌++◌, length, codes, replicate, ◌⊎◌, inl, inr, ◌∙◌, length-append,
  arith, none, some,
}
use airu_v2_fw.Upload.Chunk.{take_all}
use airu_v2_fw.Base.Bytes.{c_string}
use airu_v2_fw.Json.Escape.{escaped}
use airu_v2_fw.Json.Buffer.{literal, NoNul, Holds, Builds}
use airu_v2_fw.Json.Building.{
  Builds-result, build_three, length-replicate, length-literal, strcpy-Builds,
}
use airu_v2_fw.Wifi.{
  StaConfig, Addresses, UpdateReason, connection_ok, failed_attempt, user_disconnect,
  lost_connection,
}
use airu_v2_fw.Wifi.Documents.{
  decimal, urc, ip_info_json_format, ip_info_tail, shown, generate_ip_info_json, json_ip_info_size,
}
use airu_v2_fw.Wifi.Documents.Contents.{NoNul-decimal, NoNul-append, length-mode}

-- Addresses as text, of at most 15 characters.
pub record IsAddresses (a : Addresses) : Type 0 where
  pub no_nul : NoNul a.ip × NoNul a.netmask × NoNul a.gw
  pub short : (length a.ip ≤ 15) × (length a.netmask ≤ 15) × (length a.gw ≤ 15)

shown-IsAddresses : (a : Addresses) (r : UpdateReason) → IsAddresses a → IsAddresses (shown a r)
shown-IsAddresses a connection_ok h = h
shown-IsAddresses a failed_attempt h = record { no_nul = omega arith; short = omega arith }
shown-IsAddresses a user_disconnect h = record { no_nul = omega arith; short = omega arith }
shown-IsAddresses a lost_connection h = record { no_nul = omega arith; short = omega arith }

urc_digit : (r : UpdateReason) → urc r < 10
urc_digit connection_ok = omega arith
urc_digit failed_attempt = omega arith
urc_digit user_disconnect = omega arith
urc_digit lost_connection = omega arith

NoNul-ip_info_json_format :
    (a : Addresses) (r : UpdateReason)
    → IsAddresses a
    → NoNul (ip_info_json_format a.ip a.netmask a.gw r)
unfolding ip_info_json_format
NoNul-ip_info_json_format a r h = NoNul-append (codes ",\"ip\":\"") _ (omega arith) (
    NoNul-append a.ip _ h.no_nul.0 (
      NoNul-append (codes "\",\"netmask\":\"") _ (omega arith) (
        NoNul-append a.netmask _ h.no_nul.1 (
          NoNul-append (codes "\",\"gw\":\"") _ (omega arith) (
            NoNul-append a.gw _ h.no_nul.2 (
              NoNul-append (codes "\",\"urc\":") _ (omega arith)
                (NoNul-append (decimal (urc r)) _ (NoNul-decimal (urc r)) (omega arith))))))))

length-ip_info_json_format :
    (a : Addresses) (r : UpdateReason)
    → length (ip_info_json_format a.ip a.netmask a.gw r)
      ≡ 39 + length a.ip + length a.netmask + length a.gw
unfolding ip_info_json_format
length-ip_info_json_format a r =
    omega (arith, length-append {A = ℕ}, length-mode (urc r) (urc_digit r))

-- The document of the connection.
pub ip_info_text : StaConfig → Addresses → UpdateReason → List ℕ
ip_info_text c a r =
    codes "{\"ssid\":"
    ++ (literal (c_string (c.ssid ++ c.password))
        ++ ip_info_json_format (shown a r).ip (shown a r).netmask (shown a r).gw r)

ip_info_tail-uncut :
    (a : Addresses) (r : UpdateReason)
    → IsAddresses a
    → ip_info_tail a r ≡ ip_info_json_format (shown a r).ip (shown a r).netmask (shown a r).gw r
unfolding ip_info_tail
ip_info_tail-uncut a r h =
    let s = shown-IsAddresses a r h in
    take_all 149 (ip_info_json_format (shown a r).ip (shown a r).netmask (shown a r).gw r)
      (omega (arith, length-ip_info_json_format (shown a r) r, s.short.0, s.short.1, s.short.2))

generate_ip_info_json-Builds :
    (n : ℕ) (c : StaConfig) (a : Addresses) (r : UpdateReason) (m : List ℕ)
    → IsAddresses a
    → length m ≡ n
    → 0 < n
    → Builds n (ip_info_text c a r) (generate_ip_info_json (some c) a r m)
unfolding generate_ip_info_json ip_info_text
generate_ip_info_json-Builds n c a r m h e p = rw (ip_info_tail-uncut a r h) (
    build_three n (codes "{\"ssid\":") (c_string (c.ssid ++ c.password)) _ _
      (NoNul-ip_info_json_format (shown a r) r (shown-IsAddresses a r h))
      (strcpy-Builds n (codes "{\"ssid\":") (replicate {A = ℕ} (length m) 0) (omega arith)
        (length-replicate (length m) ∙ e) p))

length-ip_info_text :
    (c : StaConfig) (a : Addresses) (r : UpdateReason)
    → length (ip_info_text c a r)
      ≡ 49
        + length (escaped (c_string (c.ssid ++ c.password)))
        + length (shown a r).ip
        + length (shown a r).netmask
        + length (shown a r).gw
unfolding ip_info_text
length-ip_info_text c a r = omega (
  arith,
  length-append {A = ℕ},
  length-literal (c_string (c.ssid ++ c.password)),
  length-ip_info_json_format (shown a r) r,
)

-- The generator of the connection's document writes the reference text with its NUL exactly if the name
-- as it is read, escaped, and the three addresses have at most 100 bytes together.
pub generate_ip_info_json-result :
    (c : StaConfig) (a : Addresses) (r : UpdateReason) (m : List ℕ)
    → IsAddresses a
    → length m ≡ json_ip_info_size
    → ((length (escaped (c_string (c.ssid ++ c.password)))
            + length (shown a r).ip
            + length (shown a r).netmask
            + length (shown a r).gw
          ≤ 100)
        × Holds json_ip_info_size (ip_info_text c a r) (generate_ip_info_json (some c) a r m))
      ⊎ ((100
            < length (escaped (c_string (c.ssid ++ c.password)))
              + length (shown a r).ip
              + length (shown a r).netmask
              + length (shown a r).gw)
          × (generate_ip_info_json (some c) a r m ≡ none))
generate_ip_info_json-result c a r m h e =
    elim (Builds-result json_ip_info_size _ _
      (generate_ip_info_json-Builds json_ip_info_size c a r m h e (omega arith))) [
        | inl f ↦ inl (omega (arith, f.0, length-ip_info_text c a r), f.1)
        | inr o ↦ inr (omega (arith, o.0, length-ip_info_text c a r), o.1)
      ]
