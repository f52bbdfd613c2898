-- ===== src/Flood/Delay.antt =====
-- `relay_delay`: how long to wait before a relay, by the strength of the signal.
use wifipi.Prelude.{
  nat_beq, Bool, ℕ, ◌+◌, ◌≤◌, ◌<◌, List, [], ◌∷◌, Option, none, some, true, if◌then◌else◌, arith,
}
use wifipi.Prelude.Int.{ℤ, negsuc, leb_ℤ}
use wifipi.Prelude.Time.{Micros, millis}

pub record Band : Type 0 where
  pub threshold : Option ℤ
  pub base_ms : ℕ
  pub jitter_ms : ℕ

abbrev pub delay_bands : List Band
delay_bands =
    record { threshold = some (negsuc 94); base_ms = 10; jitter_ms = 5 }
    ∷ record { threshold = some (negsuc 79); base_ms = 20; jitter_ms = 15 }
    ∷ record { threshold = some (negsuc 69); base_ms = 50; jitter_ms = 20 }
    ∷ record { threshold = some (negsuc 59); base_ms = 90; jitter_ms = 17 }
    ∷ record { threshold = some (negsuc 49); base_ms = 125; jitter_ms = 30 }
    ∷ record { threshold = none; base_ms = 200; jitter_ms = 30 }
    ∷ []

abbrev pub cw_min : Micros
cw_min = millis 10

abbrev pub cw_max : Micros
cw_max = millis 230

abbrev matches : Option ℤ → ℤ → Bool
matches none rssi = true
matches (some threshold) rssi = leb_ℤ rssi threshold

-- `random.uniform(a, b)`, as a draw that lies between its arguments.
pub record IsUniform (uniform : Micros → Micros → Micros) : Type 0 where
  pub at_least : (a b : Micros) → a ≤ b → a ≤ uniform a b
  pub at_most : (a b : Micros) → a ≤ b → uniform a b ≤ b

module _ (uniform : Micros → Micros → Micros) where
  -- the loop over the bands, and the `return` behind it
  pub first_band : List Band → ℤ → Micros
  first_band [] rssi = cw_max
  first_band (band ∷ bands) rssi =
      let rest = first_band bands rssi in
      if matches band.threshold rssi
      then millis band.base_ms + uniform 0 (millis band.jitter_ms)
      else rest

  unfoldable pub relay_delay : Option ℤ → Micros
  unfolding first_band
  relay_delay none = uniform cw_min cw_max
  relay_delay (some rssi) = first_band delay_bands rssi

-- Whatever the signal, the delay lies between 10 ms and 230 ms, if the draw lies between its
-- arguments.
pub relay_delay_bounds :
    (uniform : Micros → Micros → Micros) (rssi : Option ℤ)
    → IsUniform uniform
    → (cw_min ≤ relay_delay uniform rssi) × (relay_delay uniform rssi ≤ cw_max)
unfolding relay_delay
relay_delay_bounds uniform none u = (u.at_least _ _ (omega arith), u.at_most _ _ (omega arith))
relay_delay_bounds uniform (some rssi) u = ground (
  arith,
  u.at_most 0 (millis 5) (omega arith),
  u.at_most 0 (millis 15) (omega arith),
  u.at_most 0 (millis 20) (omega arith),
  u.at_most 0 (millis 17) (omega arith),
  u.at_most 0 (millis 30) (omega arith),
)

-- The band of a signal, counted from the weakest.
abbrev pub band_of : ℤ → ℕ
band_of rssi =
    if leb_ℤ rssi (negsuc 94)
    then 0
    else if leb_ℤ rssi (negsuc 79)
    then 1
    else if leb_ℤ rssi (negsuc 69)
    then 2
    else if leb_ℤ rssi (negsuc 59)
    then 3
    else if leb_ℤ rssi (negsuc 49)
    then 4
    else 5

floor : ℕ → Micros
floor band =
    if nat_beq band 0
    then millis 10
    else if nat_beq band 1
    then millis 20
    else if nat_beq band 2
    then millis 50
    else if nat_beq band 3
    then millis 90
    else if nat_beq band 4
    then millis 125
    else millis 200

ceiling : ℕ → Micros
ceiling band =
    if nat_beq band 0
    then millis 15
    else if nat_beq band 1
    then millis 35
    else if nat_beq band 2
    then millis 70
    else if nat_beq band 3
    then millis 107
    else if nat_beq band 4
    then millis 155
    else millis 230

band_of-le : (rssi : ℤ) → band_of rssi ≤ 5
band_of-le rssi = ground arith

ceiling-lt-floor : (i j : ℕ) → i < j → j ≤ 5 → ceiling i < floor j
unfolding floor ceiling
ceiling-lt-floor i j h k = ground arith

module _ (draw : Micros → Micros → Micros) (rssi : ℤ) (u : IsUniform draw) where
  floor-le-relay_delay : floor (band_of rssi) ≤ relay_delay draw (some rssi)
  unfolding relay_delay floor
  floor-le-relay_delay = ground arith

  relay_delay-le-ceiling : relay_delay draw (some rssi) ≤ ceiling (band_of rssi)
  unfolding relay_delay ceiling
  relay_delay-le-ceiling = ground (
    arith,
    u.at_most 0 (millis 5) (omega arith),
    u.at_most 0 (millis 15) (omega arith),
    u.at_most 0 (millis 20) (omega arith),
    u.at_most 0 (millis 17) (omega arith),
    u.at_most 0 (millis 30) (omega arith),
  )

-- The jitter keeps the order of the bands: of two nodes, the one that heard the sender in a weaker
-- band relays strictly before the other, whatever each of them draws between the arguments.
pub relay_delay_far_first :
    (draw draw' : Micros → Micros → Micros) (weak strong : ℤ)
    → IsUniform draw
    → IsUniform draw'
    → band_of weak < band_of strong
    → relay_delay draw (some weak) < relay_delay draw' (some strong)
relay_delay_far_first draw draw' weak strong u u' h = omega (
  arith,
  relay_delay-le-ceiling draw weak u,
  ceiling-lt-floor (band_of weak) (band_of strong) h (band_of-le strong),
  floor-le-relay_delay draw' strong u',
)
