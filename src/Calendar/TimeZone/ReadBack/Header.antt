-- ===== src/Calendar/TimeZone/ReadBack/Header.antt =====
-- The counts of a zone file, written for the reader of glacier/base/timezone.cc.
use glacier.Common.{
  ℕ, ◌-◌, ◌/◌, ◌%◌, ◌^◌, ◌<◌, ◌≡◌, ap, arith, [], ◌∷◌, ◌++◌, length, length-append, drop-append,
  take-append, ltb, Bytes, Bool-cases, inl, inr,
}
use glacier.Common.Int.{ℤ, pos, negsuc}
use glacier.Common.Text.{codes, str_eq}
use glacier.Calendar.TimeZone.File.{
  got, ◌>>=◌, read_bytes, be32toh, read_int32, Counts, read_counts,
}

-- The bit pattern of an `int32_t`.
abbrev pub pattern_of : ℤ → ℕ
pattern_of (pos n) = n
pattern_of (negsuc n) = 2 ^ 32 - 1 - n

abbrev pub IsInt32 : ℤ → Type 0
IsInt32 (pos n) = n < 2 ^ 31
IsInt32 (negsuc n) = n < 2 ^ 31

abbrev pub write_int32 : ℤ → Bytes
write_int32 z =
    let x = pattern_of z in x / 2 ^ 24 ∷ x / 2 ^ 16 % 256 ∷ x / 2 ^ 8 % 256 ∷ x % 256 ∷ []

pub be32toh-write_int32 :
    (z : ℤ)
    → IsInt32 z
    → let x = pattern_of z in
      be32toh (x / 2 ^ 24) (x / 2 ^ 16 % 256) (x / 2 ^ 8 % 256) (x % 256) ≡ z
unfolding be32toh
be32toh-write_int32 (pos n) h = ground arith
be32toh-write_int32 (negsuc n) h = ground arith

pub read_int32-write_int32 :
    (z : ℤ) (rest : Bytes) → IsInt32 z → read_int32 (write_int32 z ++ rest) ≡ got z rest
unfolding read_int32
read_int32-write_int32 z rest h = ap (λ k. got k rest) (be32toh-write_int32 z h)

pub read_bytes-append : (xs rest : Bytes) → read_bytes (length xs) (xs ++ rest) ≡ got xs rest
unfolding read_bytes
read_bytes-append xs rest = elim (Bool-cases (ltb (length (xs ++ rest)) (length xs))) [
  | inl short ↦ absurd (ground (arith, length-append xs rest))
  | inr long ↦ rw (long, take-append xs rest, drop-append xs rest)
]

-- What stands in a file that the reader skips: the version, the reserved bytes and three counts.
pub record Skipped : Type 0 where
  pub version : ℕ
  pub reserved : Bytes
  pub isgmtcnt : ℤ
  pub isstdcnt : ℤ
  pub leapcnt : ℤ

pub record Skippable (s : Skipped) : Type 0 where
  pub reserved_is : length s.reserved ≡ 15
  pub isgmtcnt_in : IsInt32 s.isgmtcnt
  pub isstdcnt_in : IsInt32 s.isstdcnt
  pub leapcnt_in : IsInt32 s.leapcnt

abbrev pub write_counts : Skipped → Counts → Bytes → Bytes
write_counts s c rest =
    codes "TZif"
    ++ (s.version ∷ []
        ++ (s.reserved
            ++ (write_int32 s.isgmtcnt
                ++ (write_int32 s.isstdcnt
                    ++ (write_int32 s.leapcnt
                        ++ (write_int32 c.timecnt
                            ++ (write_int32 c.typecnt ++ (write_int32 c.charcnt ++ rest))))))))

pub skip_reserved :
    (s : Skipped) (rest : Bytes)
    → Skippable s
    → read_bytes 15 (s.reserved ++ rest) ≡ got s.reserved rest
skip_reserved s rest k = rw (← k.reserved_is) (read_bytes-append s.reserved rest)

pub read_counts-write_counts :
    (s : Skipped) (c : Counts) (rest : Bytes)
    → Skippable s
    → IsInt32 c.timecnt
    → IsInt32 c.typecnt
    → IsInt32 c.charcnt
    → read_counts (write_counts s c rest) ≡ got c rest
unfolding read_counts str_eq
read_counts-write_counts s c rest k h1 h2 h3 = rw (
  read_counts,
  ◌>>=◌,
  read_bytes-append (codes "TZif") _,
  ◌>>=◌,
  read_bytes-append (s.version ∷ []) _,
  ◌>>=◌,
  skip_reserved s _ k,
  ◌>>=◌,
  read_int32-write_int32 s.isgmtcnt _ k.isgmtcnt_in,
  ◌>>=◌,
  read_int32-write_int32 s.isstdcnt _ k.isstdcnt_in,
  ◌>>=◌,
  read_int32-write_int32 s.leapcnt _ k.leapcnt_in,
  ◌>>=◌,
  read_int32-write_int32 c.timecnt _ h1,
  ◌>>=◌,
  read_int32-write_int32 c.typecnt _ h2,
  ◌>>=◌,
  read_int32-write_int32 c.charcnt _ h3,
)
