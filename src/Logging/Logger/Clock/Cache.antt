-- ===== src/Logging/Logger/Clock/Cache.antt =====
-- The text that glacier/base/logging.cc keeps of a second is the one that it would print anew, until the
-- time zone changes.
use glacier.Common.{
  ◌≡◌, refl, sym, ap, ◌∙◌, true, false, Option, none, some, List, [], ◌∷◌, Bool-cases, Option-cases,
  inl, inr, ◌⊎◌, All, Bytes, arith, ◌==◌, length, take,
}
use glacier.Common.Int.{ℤ, pos, eqb_ℤ, eq_of_parts}
use glacier.Calendar.Date.{Tm}
use glacier.Calendar.TimeZone.{Data}
use glacier.Logging.FixedBuffer.{FixedBuffer, append}
use glacier.Logging.Stream.{new_stream}
use glacier.Logging.Logger.Clock.{
  Clock, set_time_zone, seconds_of, text_of_second, refresh, put_time, micro_text, micro_length,
  format_time,
}

eqb_ℤ_sound : (a b : ℤ) → eqb_ℤ a b ≡ true → a ≡ b
eqb_ℤ_sound a b e = eq_of_parts a b (ground arith)

module _ (gmtime : ℤ → Tm) (timegm : Tm → ℤ) where
  -- What stands in the buffer is the text of the last second in the present zone, or nothing was
  -- printed yet.
  abbrev pub Cached : Clock → Type 0
  Cached c =
      (c.t_lastsecond ≡ pos 0)
      ⊎ (text_of_second gmtime timegm c.zone c.t_lastsecond ≡ some c.t_time)

  -- The clock with the text of a second.
  abbrev keep : ℤ → Clock → Option Bytes → Option Clock
  keep seconds c none = none
  keep seconds c (some t) = some (record c { t_time = t; t_lastsecond = seconds })

  pub refresh-keep :
      (seconds : ℤ) (c : Clock)
      → Cached c
      → eqb_ℤ seconds (pos 0) ≡ false
      → refresh gmtime timegm seconds c
        ≡ keep seconds c (text_of_second gmtime timegm c.zone seconds)
  unfolding refresh
  refresh-keep seconds c h z = elim (Bool-cases (eqb_ℤ seconds c.t_lastsecond)) [
    | inl e ↦ elim h [
      | inl first ↦ absurd (ground (arith, z, e, first))
      | inr kept ↦
          let same = eqb_ℤ_sound seconds c.t_lastsecond e in
          rw (refresh, e)
            (sym (
              ap (λ x. keep seconds c (text_of_second gmtime timegm c.zone x)) same
              ∙ ap (keep seconds c) kept
              ∙ ap (λ x. some (record c { t_lastsecond = x })) same))
    ]
    | inr e ↦ elim (Option-cases (text_of_second gmtime timegm c.zone seconds)) [
      | inl n ↦ rw (refresh, e, n) refl
      | inr (t, n) ↦ rw (refresh, e, n) refl
    ]
  ]

  -- The time of a line printed anew, and a sequence of them.
  abbrev pub print_time : Option Data → ℤ → Option FixedBuffer
  print_time z micros = elim (text_of_second gmtime timegm z (seconds_of micros)) [
    | none ↦ none
    | some t ↦ put_time t z micros new_stream
  ]

  abbrev pub cons : Option FixedBuffer → Option (List FixedBuffer) → Option (List FixedBuffer)
  cons none rest = none
  cons (some b) none = none
  cons (some b) (some bs) = some (b ∷ bs)

  abbrev pub print_times : Option Data → List ℤ → Option (List FixedBuffer)
  print_times z [] = some []
  print_times z (m ∷ ms) = cons (print_time z m) (print_times z ms)

  -- The times that a sequence of lines prints.
  unfoldable pub format_times : List ℤ → Clock → Option (List FixedBuffer)
  format_times [] c = some []
  format_times (m ∷ ms) c = elim (format_time gmtime timegm m c new_stream) [
    | none ↦ none
    | some (c', b) ↦ cons (some b) (format_times ms c')
  ]

  -- The cache of the last second changes nothing: from a clock whose buffer holds the text of the last
  -- second in the present zone, or that has printed nothing, every sequence of lines at times outside
  -- the second 0 of the epoch prints the times that it would print anew, and fails where that fails.
  pub format_times-print_times :
      (ms : List ℤ) (c : Clock)
      → Cached c
      → All (λ m. eqb_ℤ (seconds_of m) (pos 0) ≡ false) ms
      → format_times ms c ≡ print_times c.zone ms
  unfolding format_times format_time
  format_times-print_times [] c h z = refl
  format_times-print_times (m ∷ ms) c h z =
      let r = refresh-keep (seconds_of m) c h z.0 in
      elim (Option-cases (text_of_second gmtime timegm c.zone (seconds_of m))) [
        | inl n ↦ rw (format_times, format_time, r, print_time, n) refl
        | inr (t, n) ↦
            let c' = record c { t_time = t; t_lastsecond = seconds_of m } in
            elim (Bool-cases (length (micro_text c.zone m) == micro_length c.zone)) [
              | inl y ↦
                  rw (format_times, format_time, r, print_time, n, y)
                    (ap (cons (some (append (append new_stream (take 19 t)) (micro_text c.zone m))))
                      (format_times-print_times ms c' (inr n) z.1))
              | inr y ↦ rw (format_times, format_time, r, print_time, n, y) refl
            ]
      ]

  -- `setTimeZone` does not drop the text that is kept: a line in the same second prints it still, though
  -- the new zone may print another.
  pub set_time_zone_stale :
      (micros : ℤ) (tz : Data) (c : Clock)
      → eqb_ℤ (seconds_of micros) c.t_lastsecond ≡ true
      → (b : FixedBuffer) → put_time c.t_time (some tz) micros new_stream ≡ some b
      → format_time gmtime timegm micros (set_time_zone tz c) new_stream
        ≡ some (set_time_zone tz c, b)
  unfolding format_time refresh
  set_time_zone_stale micros tz c e b p = rw (format_time, refresh, e, p) refl
