-- ===== src/Json/Building.antt =====
-- Texts that are built in a buffer, one part behind the other.
use airu_v2_fw.Base.{
  replicate, ℕ, zero, suc, ◌+◌, ◌<◌, ◌≤◌, ◌≡◌, ◌≢◌, List, [], ◌∷◌, ◌++◌, length, drop, leb, Option,
  none, some, All-append, arith, refl, sym, ap, subst, ◌∙◌, ◌⊎◌, inl, inr, append_assoc,
  length-append, Bool-cases, take-append, drop-append, length-drop,
}
use airu_v2_fw.Base.Memory.{>>=-assoc, ◌>>=◌, copy, copy_append, store}
use airu_v2_fw.Json.Escape.{quoted, escaped}
use airu_v2_fw.Json.Writes.{json_print_string_lem}
use airu_v2_fw.Json.Buffer.{
  Builds, Holds, NoNul, NoNul-literal, copy_outside, literal, print_json, strcat, strcpy,
  strlen-append,
}

-- A text and its NUL behind another text, in their place.
joined :
    (text t rest : List ℕ)
    → text ++ ((t ++ (0 ∷ [])) ++ drop (length (t ++ (0 ∷ []))) (0 ∷ rest))
      ≡ (text ++ t) ++ (0 ∷ drop (length t) rest)
joined text t rest =
    ap (λ k. text ++ ((t ++ (0 ∷ [])) ++ drop k (0 ∷ rest)))
      (length-append t (0 ∷ []) ∙ add-one (length t))
    ∙ ap (λ x. text ++ x) (append_assoc t (0 ∷ []) (drop (length t) rest))
    ∙ sym (append_assoc text t (0 ∷ drop (length t) rest))
  where
    add-one : (n : ℕ) → n + 1 ≡ suc n
    add-one n = omega arith

-- A copy of a text behind another one, in a buffer with that much behind it.
copy_behind :
    (n : ℕ) (text t rest : List ℕ)
    → NoNul (text ++ t)
    → length text + 1 + length rest ≡ n
    → Builds n (text ++ t) (copy (text ++ (0 ∷ rest)) (length text) (t ++ (0 ∷ [])))
copy_behind n text t rest h e = elim (Bool-cases (leb (length t) (length rest))) [
  | inl f ↦ (
    h,
    inl (record {
      rest = drop (length t) rest;
      is_text =
          copy_append (t ++ (0 ∷ [])) text (0 ∷ rest) (length text) refl
            (ground (arith, length-append t (0 ∷ [])))
          ∙ ap some (joined text t rest);
      size = ground (arith, length-append text t, length-drop (length t) rest);
    }),
  )
  | inr o ↦ (
    h,
    inr (
      ground (arith, length-append text t),
      copy_outside (t ++ (0 ∷ [])) (text ++ (0 ∷ rest)) (length text)
          (omega (arith, length-append t (0 ∷ [])))
          (ground (arith, length-append t (0 ∷ []), length-append text (0 ∷ rest))),
    ),
  )
]

-- A step of building: on a text that is there it puts another one behind it, if there is room.
abbrev pub Appends : (n : ℕ) → List ℕ → (List ℕ → Option (List ℕ)) → Type 0
Appends n t f =
    (text rest : List ℕ)
    → NoNul text
    → length text + 1 + length rest ≡ n
    → Builds n (text ++ t) (f (text ++ (0 ∷ rest)))

pub Builds-append :
    (n : ℕ) (text t : List ℕ) (o : Option (List ℕ)) (f : List ℕ → Option (List ℕ))
    → Appends n t f
    → NoNul t
    → Builds n text o
    → Builds n (text ++ t) (o >>= f)
Builds-append n text t o f a ht (h, inl b) = rw b.is_text (a text b.rest h b.size)
Builds-append n text t o f a ht (h, inr (l, e)) =
    (All-append (λ c. c ≢ 0) text t h ht, inr (omega (arith, length-append text t), rw e refl))

pub strcat-Appends : (n : ℕ) (t : List ℕ) → NoNul t → Appends n t (strcat t)
unfolding strcat
strcat-Appends n t ht text rest h e =
    rw (strlen-append text rest h)
      (copy_behind n text t rest (All-append (λ c. c ≢ 0) text t h ht) e)

quoted-literal : (s : List ℕ) → quoted s ≡ literal s ++ (0 ∷ [])
unfolding quoted literal
quoted-literal s = ap (λ t. b'"' ∷ t) (sym (append_assoc (escaped s) (b'"' ∷ []) (0 ∷ [])))

-- The printer does what a copy of its literal does.
print_json-copy :
    (s text rest : List ℕ)
    → NoNul text
    → print_json s (text ++ (0 ∷ rest))
      ≡ copy (text ++ (0 ∷ rest)) (length text) (literal s ++ (0 ∷ []))
unfolding print_json
print_json-copy s text rest h =
    rw
      (
        strlen-append text rest h,
        drop-append text (0 ∷ rest),
        take-append text (0 ∷ rest),
        json_print_string_lem s (0 ∷ rest),
        quoted-literal s,
      )
      (elim (Bool-cases (leb (length (literal s ++ (0 ∷ []))) (length {A = ℕ} (0 ∷ rest)))) [
        | inl f ↦
            rw
              (
                f,
                copy_append (literal s ++ (0 ∷ [])) text (0 ∷ rest) (length text) refl
                    (ground arith),
              )
              refl
        | inr o ↦
            rw
              (
                o,
                copy_outside (literal s ++ (0 ∷ [])) (text ++ (0 ∷ rest)) (length text)
                    (omega (arith, length-append (literal s) (0 ∷ [])))
                    (ground (arith, length-append text (0 ∷ rest))),
              )
              refl
      ])

pub print_json-Appends : (n : ℕ) (s : List ℕ) → Appends n (literal s) (print_json s)
print_json-Appends n s text rest h e =
    subst (λ o. Builds n (text ++ literal s) o) (sym (print_json-copy s text rest h))
      (copy_behind n text (literal s) rest
        (All-append (λ c. c ≢ 0) text (literal s) h (NoNul-literal s)) e)

first_overwritten :
    (t m : List ℕ) (c : ℕ) → copy (c ∷ m) 0 (t ++ (0 ∷ [])) ≡ copy (0 ∷ m) 0 (t ++ (0 ∷ []))
unfolding copy store
first_overwritten [] m c = refl
first_overwritten (b ∷ t) m c = refl

-- The first text in a buffer.
pub strcpy-Builds :
    (n : ℕ) (t m : List ℕ) → NoNul t → length m ≡ n → 0 < n → Builds n t (strcpy t m)
unfolding strcpy
strcpy-Builds n t [] ht e p = absurd (omega arith)
strcpy-Builds n t (c ∷ m) ht e p =
    rw (first_overwritten t m c) (copy_behind n [] t m ht (omega arith))

-- The result, in one equation.
pub Builds-result :
    (n : ℕ) (text : List ℕ) (o : Option (List ℕ))
    → Builds n text o
    → ((length text < n) × Holds n text o) ⊎ ((n ≤ length text) × (o ≡ none))
Builds-result n text o (h, inl b) = inl (omega (arith, b.size), b)
Builds-result n text o (h, inr x) = inr x

pub length-literal : (s : List ℕ) → length (literal s) ≡ length (escaped s) + 2
unfolding literal
length-literal s = omega (arith, length-append (escaped s) (b'"' ∷ []))

-- Two parts behind the first.
pub build_three :
    (n : ℕ) (t0 s t : List ℕ) (o : Option (List ℕ))
    → NoNul t
    → Builds n t0 o
    → Builds n (t0 ++ (literal s ++ t)) (o >>= λ m1. print_json s m1 >>= strcat t)
build_three n t0 s t o h b =
    subst (λ x. Builds n x (o >>= λ m1. print_json s m1 >>= strcat t))
      (append_assoc t0 (literal s) t)
      (subst (Builds n ((t0 ++ literal s) ++ t)) (>>=-assoc o (print_json s) (strcat t)) (
        Builds-append n (t0 ++ literal s) t _ _ (strcat-Appends n t h) h
          (Builds-append n t0 (literal s) o _ (print_json-Appends n s) (NoNul-literal s) b)))

pub length-replicate : (n : ℕ) → length (replicate {A = ℕ} n 0) ≡ n
length-replicate zero = refl
length-replicate (suc n) = omega (arith, length-replicate n)

-- A text behind the empty one that `memset` leaves.
pub zeros-Builds :
    (n : ℕ) (t : List ℕ) → NoNul t → 0 < n → Builds n t (strcat t (replicate {A = ℕ} n 0))
zeros-Builds zero t h p = absurd (omega arith)
zeros-Builds (suc n) t h p =
    strcat-Appends (suc n) t h [] (replicate {A = ℕ} n 0) tt (omega (arith, length-replicate n))
