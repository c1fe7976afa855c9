-- ===== src/Clock/Polls.antt =====
-- main/time_if.c: `_sntp_obtain_time` ends after at most 24 polls, with the first time that is set.
use airu_v2_fw.Base.{
  ℕ, zero, suc, ◌+◌, ◌<◌, ◌≤◌, ◌≡◌, ◌⊎◌, inl, inr, Bool, false, Option, some, refl, sym, ltb→lt, ap,
  ◌∙◌, arith, ltb, Bool-cases,
}
use airu_v2_fw.Clock.{sec_jan1_2018, wait_for_time, sntp_obtain_time}

below : (retry i : ℕ) → retry < i → ltb (retry + 1) i ≡ false → i ≡ retry + 1
below retry i a h = ground arith

-- What a wait that has polled `retry` times comes to.
record Polled (clock : ℕ → ℕ) (retry now : ℕ) (o : Option (ℕ × ℕ)) : Type 0 where
  result : ℕ
  last_retry : ℕ
  returns : o ≡ some (result, last_retry)
  polls : ℕ
  more : retry ≤ polls
  few : polls ≤ 24
  earlier : (i : ℕ) → retry < i → i < polls → clock i < sec_jan1_2018
  started : retry < polls → now < sec_jan1_2018
  is_last : ((polls ≡ retry) × (result ≡ now)) ⊎ ((retry < polls) × (result ≡ clock polls))
  done : (sec_jan1_2018 ≤ result) ⊎ (polls ≡ 24)

wait_for_time-Polled :
    (fuel retry now : ℕ) (clock : ℕ → ℕ)
    → retry ≤ 24
    → 25 ≤ fuel + retry
    → Polled clock retry now (wait_for_time fuel clock retry now)
unfolding wait_for_time
wait_for_time-Polled zero retry now clock h f = absurd (omega arith)
wait_for_time-Polled (suc fuel) retry now clock h f = elim (Bool-cases (ltb now sec_jan1_2018)) [
  | inr set ↦ record {
    result = now;
    last_retry = retry;
    returns = rw set refl;
    polls = retry;
    more = omega arith;
    few = h;
    earlier = λ i a b. absurd (omega arith);
    started = λ a. absurd (omega arith);
    is_last = inl (refl, refl);
    done = inl (ground arith);
  }
  | inl unset ↦ elim (Bool-cases (ltb (retry + 1) 25)) [
    | inr last ↦ record {
      result = now;
      last_retry = retry + 1;
      returns = rw (unset, last) refl;
      polls = retry;
      more = omega arith;
      few = h;
      earlier = λ i a b. absurd (omega arith);
      started = λ a. absurd (omega arith);
      is_last = inl (refl, refl);
      done = inr (ground arith);
    }
    | inl again ↦
        let r =
          wait_for_time-Polled fuel (retry + 1) (clock (retry + 1)) clock (ground arith)
            (omega arith) in
        record {
          result = r.result;
          last_retry = r.last_retry;
          returns = rw (unset, again) r.returns;
          polls = r.polls;
          more = omega (arith, r.more);
          few = r.few;
          earlier = λ i a b. elim (Bool-cases (ltb (retry + 1) i)) [
            | inl later ↦ r.earlier i (ltb→lt (retry + 1) i later) b
            | inr here ↦ rw (below retry i a here) (r.started (omega (arith, below retry i a here)))
          ];
          started = λ a. ltb→lt now sec_jan1_2018 unset;
          is_last = elim r.is_last [
            | inl (e1, e2) ↦ inr (omega (arith, r.more), e2 ∙ ap clock (sym e1))
            | inr (a, e) ↦ inr (omega arith, e)
          ];
          done = r.done;
        }
  ]
]

-- What the wait for the time comes to.
pub record Obtained (clock : ℕ → ℕ) (o : Option (ℕ × Bool)) : Type 0 where
  pub polls : ℕ
  pub some_poll : 0 < polls
  pub few : polls ≤ 24
  pub returns : o ≡ some (clock polls, ltb sec_jan1_2018 (clock polls))
  pub earlier : (i : ℕ) → 0 < i → i < polls → clock i < sec_jan1_2018
  pub done : (sec_jan1_2018 ≤ clock polls) ⊎ (polls ≡ 24)

-- The wait always ends, after at most 24 polls: with the first poll whose time is set, or with the
-- last; the bit is set exactly if that time is later than the start of 2018. All times before it
-- were not set.
pub sntp_obtain_time-Obtained :
    (fuel : ℕ) (clock : ℕ → ℕ) → 25 ≤ fuel → Obtained clock (sntp_obtain_time fuel clock)
unfolding sntp_obtain_time
sntp_obtain_time-Obtained fuel clock h =
    let r = wait_for_time-Polled fuel 0 0 clock (omega arith) (omega arith) in
    let (p, e) = polled r in
    record {
      polls = r.polls;
      some_poll = p;
      few = r.few;
      returns = rw (r.returns, e) refl;
      earlier = r.earlier;
      done = elim r.done [ inl s ↦ inl (omega (arith, e)) | inr q ↦ inr q ];
    }
  where
    unpolled : {o : Option (ℕ × ℕ)} (r : Polled clock 0 0 o) → r.polls ≡ 0 → r.result ≡ 0 → ⊥
    unpolled r e1 e2 = elim r.done [ inl s ↦ omega (arith, e2) | inr q ↦ omega (arith, e1) ]

    polled :
        {o : Option (ℕ × ℕ)} (r : Polled clock 0 0 o) → (0 < r.polls) × (r.result ≡ clock r.polls)
    polled r = elim r.is_last [ inl (e1, e2) ↦ absurd (unpolled r e1 e2) | inr x ↦ x ]
