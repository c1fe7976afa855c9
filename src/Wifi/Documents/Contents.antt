-- ===== src/Wifi/Documents/Contents.antt =====
-- What the documents of main/wifi_manager.c say, and when they fit their buffers.
use airu_v2_fw.Base.{
  ℕ, suc, ◌+◌, ◌<◌, ◌≤◌, ◌≡◌, ◌≢◌, List, [], ◌∷◌, ◌++◌, length, codes, ◌==◌, if◌then◌else◌, All,
  All-append, ◌⊎◌, refl, sym, ap, subst, ◌∙◌, append_assoc, append-nil, length-append, arith,
  Option, none, some,
}
use airu_v2_fw.Base.Int.{ℤ, pos, negsuc, pos_part, neg_part}
use airu_v2_fw.Base.Memory.{◌>>=◌, >>=-assoc_four, >>=-some}
use airu_v2_fw.ApList.{Ap}
use airu_v2_fw.Upload.Chunk.{take_all}
use airu_v2_fw.Json.Buffer.{strcat, print_json, literal, NoNul, NoNul-literal, Holds, Builds}
use airu_v2_fw.Json.Building.{
  Builds-append, Builds-result, strcat-Appends, print_json-Appends, strcpy-Builds,
}
use airu_v2_fw.Wifi.Documents.{
  decimal, signed_decimal, oneap_str, one_ap, add_access_points, generate_access_points_json,
}

-- The values that the fields of a record have: a channel of a byte, a signal of a signed byte, and
-- an authentication mode of one digit.
pub record IsRecord (r : Ap) : Type 0 where
  pub channel : r.primary < 256
  pub signal : pos_part r.rssi + neg_part r.rssi ≤ 128
  pub mode : r.authmode < 10

pub NoNul-decimal : (n : ℕ) → NoNul (decimal n)
unfolding decimal
NoNul-decimal n = ground arith

pub length-decimal : (n : ℕ) → length (decimal n) ≤ 3
unfolding decimal
length-decimal n = ground arith

pub NoNul-append : (a b : List ℕ) → NoNul a → NoNul b → NoNul (a ++ b)
NoNul-append a b h k = All-append (λ c. c ≢ 0) a b h k

NoNul-signed_decimal : (z : ℤ) → NoNul (signed_decimal z)
unfolding signed_decimal
NoNul-signed_decimal (pos n) = NoNul-decimal n
NoNul-signed_decimal (negsuc n) = (omega arith, NoNul-decimal (suc n))

pub length-signed_decimal : (z : ℤ) → length (signed_decimal z) ≤ 4
unfolding signed_decimal
length-signed_decimal (pos n) = omega (arith, length-decimal n)
length-signed_decimal (negsuc n) = omega (arith, length-decimal (suc n))

pub length-mode : (n : ℕ) → n < 10 → length (decimal n) ≡ 1
unfolding decimal
length-mode n h = ground arith

NoNul-oneap_str : (ap : Ap) (last : ℕ) → last ≢ 0 → NoNul (oneap_str ap last)
unfolding oneap_str
NoNul-oneap_str ap last h = NoNul-append (codes ",\"chan\":") _ (omega arith) (
    NoNul-append (decimal ap.primary) _ (NoNul-decimal ap.primary) (
      NoNul-append (codes ",\"rssi\":") _ (omega arith) (
        NoNul-append (signed_decimal ap.rssi) _ (NoNul-signed_decimal ap.rssi) (
          NoNul-append (codes ",\"auth\":") _ (omega arith)
            (NoNul-append (decimal ap.authmode) _ (NoNul-decimal ap.authmode) (omega arith))))))

length-oneap_str : (ap : Ap) (last : ℕ) → ap.authmode < 10 → length (oneap_str ap last) ≤ 35
unfolding oneap_str
length-oneap_str ap last h = ground (
  arith,
  length-append (decimal ap.primary),
  length-append (signed_decimal ap.rssi),
  length-append (decimal ap.authmode),
  length-decimal ap.primary,
  length-signed_decimal ap.rssi,
  length-mode ap.authmode h,
)

one_ap-uncut : (ap : Ap) (last : ℕ) → ap.authmode < 10 → one_ap ap last ≡ oneap_str ap last
unfolding one_ap
one_ap-uncut ap last h = take_all 98 (oneap_str ap last) (omega (arith, length-oneap_str ap last h))

-- One network as a JSON object.
unfoldable pub entry : Ap → List ℕ
entry ap =
    codes "{\"ssid\":"
    ++ (literal ap.ssid
        ++ (codes ",\"chan\":"
            ++ (decimal ap.primary
                ++ (codes ",\"rssi\":"
                    ++ (signed_decimal ap.rssi
                        ++ (codes ",\"auth\":" ++ (decimal ap.authmode ++ (b'}' ∷ []))))))))

-- The networks as a JSON array, one on each line; without a network it is not closed.
unfoldable pub entries : List Ap → List ℕ
entries [] = []
entries (ap ∷ []) = entry ap ++ codes "]\n"
entries (ap ∷ b ∷ rest) = entry ap ++ (codes ",\n" ++ entries (b ∷ rest))

-- The parts that a round adds.
round_text : Ap → ℕ → List ℕ
round_text ap last = codes "{\"ssid\":" ++ (literal ap.ssid ++ oneap_str ap last)

round_Builds :
    (n : ℕ) (x : Ap) (last : ℕ) (text : List ℕ) (o : Option (List ℕ))
    → last ≢ 0
    → Builds n text o
    → Builds n
        (text ++ round_text x last)
        (((o >>= strcat (codes "{\"ssid\":")) >>= print_json x.ssid) >>= strcat (oneap_str x last))
unfolding round_text
round_Builds n x last text o l b =
    subst
      (λ t.
        Builds n t (
          ((o >>= strcat (codes "{\"ssid\":")) >>= print_json x.ssid)
          >>= strcat (oneap_str x last)))
      joined
      (Builds-append n _ (oneap_str x last) _ _
        (strcat-Appends n (oneap_str x last) (NoNul-oneap_str x last l)) (NoNul-oneap_str x last l)
        (Builds-append n _ (literal x.ssid) _ _ (print_json-Appends n x.ssid) (NoNul-literal x.ssid)
          (Builds-append n text (codes "{\"ssid\":") o _
            (strcat-Appends n (codes "{\"ssid\":") (omega arith)) (omega arith) b)))
  where
    joined :
        ((text ++ codes "{\"ssid\":") ++ literal x.ssid) ++ oneap_str x last
        ≡ text ++ (codes "{\"ssid\":" ++ (literal x.ssid ++ oneap_str x last))
    joined =
        append_assoc (text ++ codes "{\"ssid\":") (literal x.ssid) (oneap_str x last)
        ∙ append_assoc text (codes "{\"ssid\":") (literal x.ssid ++ oneap_str x last)

-- The rest of a round and the rounds behind it.
rounds_split :
    (x : Ap) (xs : List Ap) (o : Option (List ℕ))
    → x.authmode < 10
    → (o >>= add_access_points (x ∷ xs)) ≡ (
        (((o >>= strcat (codes "{\"ssid\":")) >>= print_json x.ssid)
          >>= strcat (oneap_str x (if length xs == 0 then b']' else b',')))
        >>= add_access_points xs)
unfolding add_access_points
rounds_split x xs o h = sym (
    >>=-assoc_four o (strcat (codes "{\"ssid\":")) (print_json x.ssid)
      (strcat (oneap_str x (if length xs == 0 then b']' else b','))) (add_access_points xs)
    ∙ rw (← one_ap-uncut x (if length xs == 0 then b']' else b',') h) refl)

entry_last :
    (x : Ap) (last : ℕ) (rest : List ℕ)
    → round_text x last ++ rest ≡ entry x ++ (last ∷ b'\n' ∷ rest)
unfolding round_text entry oneap_str
entry_last x last rest = simp append_assoc refl

rounds_text :
    (x : Ap) (xs : List Ap)
    → round_text x (if length xs == 0 then b']' else b',') ++ entries xs ≡ entries (x ∷ xs)
unfolding entries
rounds_text x [] = entry_last x b']' []
rounds_text x (y ∷ xs) = ground (arith, entry_last x b',' (entries (y ∷ xs)))

add_access_points-Builds :
    (n : ℕ) (xs : List Ap) (text : List ℕ) (o : Option (List ℕ))
    → All IsRecord xs
    → Builds n text o
    → Builds n (text ++ entries xs) (o >>= add_access_points xs)
unfolding add_access_points entries
add_access_points-Builds n [] text o h b =
    subst (λ t. Builds n t (o >>= some)) (sym (append-nil text))
      (subst (Builds n text) (sym (>>=-some o)) b)
add_access_points-Builds n (x ∷ xs) text o h b =
    let l = if length xs == 0 then b']' else b',' in
    subst (λ t. Builds n t (o >>= add_access_points (x ∷ xs)))
      (append_assoc text (round_text x l) (entries xs) ∙ ap (λ t. text ++ t) (rounds_text x xs))
      (subst (Builds n ((text ++ round_text x l) ++ entries xs))
        (sym (rounds_split x xs o h.0.mode))
        (add_access_points-Builds n xs (text ++ round_text x l) _ h.1
          (round_Builds n x l text o (ground arith) b)))

-- A reference for the document: a JSON array with one object for each network.
unfoldable pub access_points_text : List Ap → List ℕ
access_points_text xs = b'[' ∷ entries xs

-- Whatever stands in its buffer, of any size above 0, the generator of the access point list writes the
-- reference text with its NUL if they fit, and leaves the buffer if they do not.
pub generate_access_points_json-Builds :
    (n : ℕ) (xs : List Ap) (m : List ℕ)
    → All IsRecord xs
    → length m ≡ n
    → 0 < n
    → ((length (access_points_text xs) < n)
        × Holds n (access_points_text xs) (generate_access_points_json xs m))
      ⊎ ((n ≤ length (access_points_text xs)) × (generate_access_points_json xs m ≡ none))
unfolding generate_access_points_json access_points_text
generate_access_points_json-Builds n xs m h e p = Builds-result n (b'[' ∷ entries xs) _ (
    add_access_points-Builds n xs (codes "[") _ h (strcpy-Builds n (codes "[") m (omega arith) e p))
