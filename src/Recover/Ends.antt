-- ===== src/Recover/Ends.antt =====
-- Both loops end, and with the right answer.
use wifipi.Prelude.Time.{millis, Micros}
use wifipi.Prelude.{
  ◌≢◌, nat_beq, leb→gt, leb→le, ◌∙◌, ◌⊎◌, leb, Option, subst, ltb→ge, ◌-◌, refl, inr, ltb→lt, inl,
  ltb, Bool-cases, zero, some, false, true, ap, ◌≡◌, ◌*◌, suc, arith, ◌<◌, ◌+◌, Bool, ◌≤◌, ℕ,
  list_eq,
}
use native.Mathlib.Nat.{add-zero}
use wifipi.Recover.{
  Round, quiet, frame, hollow, failed, wait_from, wait_for_iface, count_from, frames_heard,
}

-- `time.sleep(0.5)` between two turns takes at least that long, and the clock does not run backwards.
pub record IsSlept (clock : ℕ → Micros) : Type 0 where
  pub start : clock 0 ≤ clock 1
  pub turn : (n : ℕ) → clock (n + 1) + millis 500 ≤ clock (n + 2)

-- What the answer says: a turn before the deadline met the interface, or none did.
abbrev pub IsAnswer : (ℕ → Micros) → (ℕ → Bool) → Micros → Bool → Type 0
IsAnswer clock there deadline true = (k : ℕ) × (clock (k + 1) < deadline) × (there (k + 1) ≡ true)
IsAnswer clock there deadline false = (k : ℕ) → clock (k + 1) < deadline → there (k + 1) ≡ false

module _ (clock : ℕ → Micros) (slept : IsSlept clock) where
  later : (n d : ℕ) → clock (n + 1) ≤ clock (n + d + 1)
  later n zero =
      let same : clock (n + 1) ≡ clock (n + 0 + 1) = ap clock (omega arith) in omega arith
  later n (suc d) =
      let once = slept.turn (n + d) in
      let same : clock (n + suc d + 1) ≡ clock (n + d + 2) = ap clock (omega arith) in
      omega (arith, later n d, once, same)

  pub not_earlier : (n k : ℕ) → n ≤ k → clock (n + 1) ≤ clock (k + 1)
  not_earlier n k h =
      let same : clock (n + (k - n) + 1) ≡ clock (k + 1) = ap clock (omega arith) in
      omega (arith, later n (k - n), same)

  none_before :
      (there : ℕ → Bool) (deadline n : ℕ)
      → deadline ≤ clock (n + 1)
      → ((k : ℕ) → k < n → there (k + 1) ≡ false)
      → IsAnswer clock there deadline false
  none_before there deadline n late before k early = elim (Bool-cases (ltb k n)) [
    | inl h ↦ before k (ltb→lt k n h)
    | inr h ↦ absurd (omega (arith, late, early, not_earlier n k (ltb→ge k n h)))
  ]

  abbrev Ends : (ℕ → Bool) → Micros → ℕ → ℕ → Type 0
  Ends there deadline n fuel =
      (b : Bool) × (wait_from clock there deadline (n + 1) fuel ≡ some b)
      × IsAnswer clock there deadline b

  -- one turn, given what the turns after it do
  turn_lem :
      (there : ℕ → Bool) (deadline n fuel : ℕ)
      → ((k : ℕ) → k < n → there (k + 1) ≡ false)
      → (clock (n + 1) < deadline → there (n + 1) ≡ false → Ends there deadline (n + 1) fuel)
      → Ends there deadline n (suc fuel)
  unfolding wait_from
  turn_lem there deadline n fuel before next = elim (Bool-cases (ltb (clock (n + 1)) deadline)) [
    | inl early ↦
        let in_time = ltb→lt (clock (n + 1)) deadline early in
        elim (Bool-cases (there (n + 1))) [
          | inl found ↦ (true, rw (wait_from, early, found) refl, (n, in_time, found))
          | inr absent ↦
              let (b, same, answer) = next in_time absent in
              (b, rw (wait_from, early, absent) same, answer)
        ]
    | inr late ↦ (
      false,
      rw (wait_from, late) refl,
      none_before there deadline n (ltb→ge (clock (n + 1)) deadline late) before,
    )
  ]

  absent_below :
      (there : ℕ → Bool) (n : ℕ)
      → ((k : ℕ) → k < n → there (k + 1) ≡ false)
      → there (n + 1) ≡ false
      → (k : ℕ) → k < n + 1
      → there (k + 1) ≡ false
  absent_below there n before absent k below = elim (Bool-cases (ltb k n)) [
    | inl i ↦ before k (ltb→lt k n i)
    | inr i ↦
        let last : n ≡ k = omega (arith, below, ltb→ge k n i) in
        subst (λ j. there (j + 1) ≡ false) last absent
  ]

  wait_from_lem :
      (there : ℕ → Bool) (deadline n fuel : ℕ)
      → deadline ≤ clock (n + 1) + millis 500 * fuel
      → ((k : ℕ) → k < n → there (k + 1) ≡ false)
      → Ends there deadline n (suc fuel)
  wait_from_lem there deadline n zero h before =
      turn_lem there deadline n zero before (λ early absent. absurd (omega (arith, h, early)))
  wait_from_lem there deadline n (suc fuel) h before =
      turn_lem there deadline n (suc fuel) before (λ early absent.
        let turn = slept.turn n in
        let same : clock (n + 2) ≡ clock (n + 1 + 1) = ap clock (omega arith) in
        wait_from_lem there deadline (n + 1) fuel (omega (arith, h, turn, same))
          (absent_below there n before absent))

  -- If a turn sleeps for half a second at least, the loop of wait_for_iface ends within a turn more than
  -- there are half seconds in the timeout; the answer is true if a turn before the deadline met the
  -- interface, and false only if none did.
  pub wait_for_iface_lem :
      (there : ℕ → Bool) (timeout fuel : ℕ)
      → timeout ≤ millis 500 * fuel
      → (b : Bool) × (wait_for_iface clock there timeout (suc fuel) ≡ some b)
        × IsAnswer clock there (clock 0 + timeout) b
  unfolding wait_for_iface
  wait_for_iface_lem there timeout fuel h =
      wait_from_lem there (clock 0 + timeout) 0 fuel (omega (arith, h, slept.start))
        (λ k below. absurd (omega arith))

-- the frames of `m` turns from turn `n` on
unfoldable pub frames_in : (ℕ → Round) → ℕ → ℕ → ℕ
frames_in air n zero = 0
frames_in air n (suc m) = elim (air n) [
  | frame ↦ suc (frames_in air (n + 1) m)
  | _ ↦ frames_in air (n + 1) m
]

-- A turn that ends the loop: its reading is at or past the deadline, or it meets an error.
abbrev pub IsLast : (ℕ → Micros) → (ℕ → Round) → Micros → ℕ → Type 0
IsLast clock air deadline k = (deadline ≤ clock k) ⊎ (air k ≡ failed)

-- The count is that of the turns before the first that ends the loop.
abbrev pub IsCount : (ℕ → Micros) → (ℕ → Round) → Micros → ℕ → ℕ → Option ℕ → Type 0
IsCount clock air deadline n frames out =
    (m : ℕ) × (out ≡ some (frames + frames_in air n m))
    × IsLast clock air deadline (n + m)
    × ((j : ℕ) → j < m → ¬ IsLast clock air deadline (n + j))

-- the loop that ends at once
ended :
    (clock : ℕ → Micros) (air : ℕ → Round) (deadline n frames : ℕ)
    → IsLast clock air deadline n
    → IsCount clock air deadline n frames (some frames)
unfolding frames_in
ended clock air deadline n frames why = (
  0,
  ap some (omega arith),
  subst (IsLast clock air deadline) (omega arith) why,
  λ j h. absurd (omega arith),
)

-- a turn more before the end, which heard `more` frames
one_more :
    (clock : ℕ → Micros) (air : ℕ → Round) (deadline n frames more : ℕ) (out : Option ℕ)
    → ((m : ℕ) → frames_in air n (suc m) ≡ more + frames_in air (n + 1) m)
    → ¬ IsLast clock air deadline n
    → IsCount clock air deadline (n + 1) (frames + more) out
    → IsCount clock air deadline n frames out
one_more clock air deadline n frames more out same on (m, counted, why, first) = (
  suc m,
  counted ∙ ap some (omega (arith, same m)),
  subst (IsLast clock air deadline) (omega arith) why,
  λ j h last. elim (Bool-cases (nat_beq j 0)) [
    | inl now ↦ on (subst (IsLast clock air deadline) (ground arith) last)
    | inr ahead ↦
        first (j - 1) (ground arith) (subst (IsLast clock air deadline) (ground arith) last)
  ],
)

goes_on :
    (clock : ℕ → Micros) (air : ℕ → Round) (deadline n : ℕ)
    → clock n < deadline
    → air n ≢ failed
    → ¬ IsLast clock air deadline n
goes_on clock air deadline n early fine (inl late) = omega (arith, early, late)
goes_on clock air deadline n early fine (inr broken) = fine broken

IsCount-turn :
    (clock : ℕ → Micros) (air : ℕ → Round) (deadline n frames fuel : ℕ)
    → (clock n < deadline
        → (heard : ℕ)
        → IsCount clock air deadline
            (n + 1)
            heard
            (count_from clock air deadline (n + 1) heard fuel))
    → IsCount clock air deadline n frames (count_from clock air deadline n frames (suc fuel))
unfolding count_from frames_in
IsCount-turn clock air deadline n frames fuel next = elim (Bool-cases (leb deadline (clock n))) [
  | inl late ↦
      rw (count_from, late)
        (ended clock air deadline n frames (inl (leb→le deadline (clock n) late)))
  | inr early ↦ rw (count_from, early) (go (air n) refl (leb→gt deadline (clock n) early))
]
  where
    go :
        (r : Round)
        → air n ≡ r
        → clock n < deadline
        → IsCount clock air deadline n frames (elim (air n) [
          | quiet ↦ count_from clock air deadline (n + 1) frames fuel
          | frame ↦ count_from clock air deadline (n + 1) (frames + 1) fuel
          | hollow ↦ count_from clock air deadline (n + 1) frames fuel
          | failed ↦ some frames
        ])
    go quiet h early = rw h (
        one_more clock air deadline n frames 0 _ (λ m. rw (h, frames_in) (omega arith))
          (goes_on clock air deadline n early (λ e. cc (h, e)))
          (rw (add-zero frames) (next early frames)))
    go frame h early = rw h (
        one_more clock air deadline n frames 1 _ (λ m. rw (h, frames_in) (omega arith))
          (goes_on clock air deadline n early (λ e. cc (h, e))) (next early (frames + 1)))
    go hollow h early = rw h (
        one_more clock air deadline n frames 0 _ (λ m. rw (h, frames_in) (omega arith))
          (goes_on clock air deadline n early (λ e. cc (h, e)))
          (rw (add-zero frames) (next early frames)))
    go failed h early = rw h (ended clock air deadline n frames (inr h))

count_from_lem :
    (clock : ℕ → Micros) (air : ℕ → Round) (deadline n frames fuel : ℕ)
    → deadline ≤ clock (n + fuel)
    → IsCount clock air deadline n frames (count_from clock air deadline n frames (suc fuel))
count_from_lem clock air deadline n frames zero h =
    let same : clock (n + 0) ≡ clock n = ap clock (omega arith) in
    IsCount-turn clock air deadline n frames zero
      (λ early heard. absurd (omega (arith, h, early, same)))
count_from_lem clock air deadline n frames (suc fuel) h =
    IsCount-turn clock air deadline n frames (suc fuel) (λ early heard.
      count_from_lem clock air deadline (n + 1) heard fuel
        (subst (λ k. deadline ≤ clock k) (omega arith) h))

-- If the reading of some turn is at or past the deadline, the loop of frames_heard ends, with a turn of
-- fuel for each turn up to it: the answer is the number of frames of the turns before the first one whose
-- reading is at or past the deadline or that meets an error.
pub frames_heard_lem :
    (clock : ℕ → Micros) (air : ℕ → Round) (duration fuel : ℕ)
    → clock 0 + duration ≤ clock (1 + fuel)
    → IsCount clock air (clock 0 + duration) 1 0 (frames_heard clock air duration (suc fuel))
unfolding frames_heard
frames_heard_lem clock air duration fuel h =
    count_from_lem clock air (clock 0 + duration) 1 0 fuel h
