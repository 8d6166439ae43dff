-- ===== src/Calendar/TimeZone/File.antt =====
-- The reader of zone files in glacier/base/timezone.cc: class `File` over the bytes that are left,
-- and `readTimeZoneFile`. A `std::logic_error` is `throws`; what C++ leaves undefined, a vector
-- read out of range or a buffer of negative size, is `fault`.
use glacier.Common.{
  ℕ, zero, suc, ◌+◌, ◌-◌, ◌*◌, ◌^◌, Bool, true, false, not, Option, none, some, List, [], ◌∷◌, ◌++◌,
  get_elem?, length, take, drop, ltb, ◌==◌, if◌then◌else◌, Bytes,
}
use glacier.Common.Int.{ℤ, pos, negsuc, ◌+ℤ◌}
use glacier.Common.Text.{codes, str_eq}
use glacier.Calendar.TimeZone.{Transition, transition, Localtime, Data}

pub data Reply (A : Type 0) : Type 0 where
  got : A → Bytes → Reply A
  throws : Reply A
  fault : Reply A

abbrev pub Reader : Type 0 → Type 0
Reader A = Bytes → Reply A

abbrev pub pure : {A : Type 0} → A → Reader A
pure a file = got a file

infixl 5 ◌>>=◌ ◌>>◌
abbrev pub ◌>>=◌ : {A B : Type 0} → Reader A → (A → Reader B) → Reader B
◌>>=◌ m f file = elim (m file) [ got a rest ↦ f a rest | throws ↦ throws | fault ↦ fault ]

abbrev pub ◌>>◌ : {A B : Type 0} → Reader A → Reader B → Reader B
m >> k = m >>= λ _. k

unfoldable pub read_bytes : ℕ → Reader Bytes
read_bytes n file = if ltb (length file) n then throws else got (take n file) (drop n file)

-- Four bytes in big-endian order as an `int32_t`.
unfoldable pub be32toh : ℕ → ℕ → ℕ → ℕ → ℤ
be32toh a b c d =
    let x = a * 2 ^ 24 + b * 2 ^ 16 + c * 2 ^ 8 + d in
    if ltb x (2 ^ 31) then pos x else negsuc (2 ^ 32 - 1 - x)

unfoldable pub read_int32 : Reader ℤ
read_int32 (a ∷ b ∷ c ∷ d ∷ rest) = got (be32toh a b c d) rest
read_int32 _ = throws

unfoldable pub read_u_int8 : Reader ℕ
read_u_int8 [] = throws
read_u_int8 (x ∷ rest) = got x rest

pub record Counts : Type 0 where
  pub timecnt : ℤ
  pub typecnt : ℤ
  pub charcnt : ℤ

-- The version byte, the 15 reserved bytes and the first three counts are read and not used.
unfoldable pub read_counts : Reader Counts
read_counts = do
  head ← read_bytes 4
  version ← (if str_eq head (codes "TZif") then read_bytes 1 else λ _. throws)
  reserved ← read_bytes 15
  isgmtcnt ← read_int32
  isstdcnt ← read_int32
  leapcnt ← read_int32
  timecnt ← read_int32
  typecnt ← read_int32
  charcnt ← read_int32
  pure (record { timecnt = timecnt; typecnt = typecnt; charcnt = charcnt })

-- The loops that fill `trans` and `localtimes`.
unfoldable pub read_trans : ℕ → Reader (List ℤ)
read_trans zero = pure []
read_trans (suc n) = do t ← read_int32; ts ← read_trans n; pure (t ∷ ts)

unfoldable pub read_indices : ℕ → Reader Bytes
read_indices zero = pure []
read_indices (suc n) = do i ← read_u_int8; is ← read_indices n; pure (i ∷ is)

unfoldable pub read_type : Reader Localtime
read_type = do
  gmtoff ← read_int32
  isdst ← read_u_int8
  abbrind ← read_u_int8
  pure (record { gmt_offset = gmtoff; is_dst = not (isdst == 0); arrb_idx = abbrind })

-- The loop over the types pushes onto the zone's own vector, which keeps what was read before an
-- exception: `pushed` is that vector.
pub record Pushed : Type 0 where
  pub pushed : List Localtime
  pub reply : Reply (Unit {0})

unfoldable pub read_types : ℕ → List Localtime → Bytes → Pushed
read_types zero pushed file = record { pushed = pushed; reply = got tt file }
read_types (suc n) pushed file = elim (read_type file) [
  | got l rest ↦ read_types n (pushed ++ l ∷ []) rest
  | throws ↦ record { pushed = pushed; reply = throws }
  | fault ↦ record { pushed = pushed; reply = fault }
]

-- The last loop; `none` for an index past the end of the local times.
unfoldable pub link : List ℤ → Bytes → List Localtime → Option (List Transition)
link (t ∷ ts) (i ∷ is) ls = elim (get_elem? ls i) [
  | none ↦ none
  | some l ↦ elim (link ts is ls) [
    | none ↦ none
    | some rest ↦ some (transition t (t +ℤ l.gmt_offset) i ∷ rest)
  ]
]
link _ _ ls = some []

-- A loop counter runs up to a count, and not at all for a negative one.
abbrev pub rounds : ℤ → ℕ
rounds (pos n) = n
rounds (negsuc n) = 0

-- The part of the `try` block that only reads. `reserve` throws a `std::length_error`, which is a
-- `std::logic_error`, for a negative count.
abbrev pub reserve : ℤ → Reader (Unit {0})
reserve (pos n) file = got tt file
reserve (negsuc n) file = throws

pub record Tables : Type 0 where
  pub counts : Counts
  pub trans : List ℤ
  pub indices : Bytes

unfoldable pub read_tables : Reader Tables
read_tables = do
  c ← read_counts
  reserve c.timecnt
  ts ← read_trans (rounds c.timecnt)
  is ← read_indices (rounds c.timecnt)
  pure (record { counts = c; trans = ts; indices = is })

unfoldable pub read_abbreviation : ℤ → Reader Bytes
read_abbreviation (pos n) file = read_bytes n file
read_abbreviation (negsuc n) file = fault

-- What the zone holds when the `try` block ends or throws; `none` for a fault.
unfoldable pub finish : Data → List Transition → List Localtime → Reply Bytes → Option Data
finish d ts ls (got abbreviation rest) =
    some
      (record { transitions = d.transitions ++ ts; localtimes = ls; abbreviation = abbreviation })
finish d ts ls throws = some (record d { transitions = d.transitions ++ ts; localtimes = ls })
finish d ts ls fault = none

unfoldable pub after_types : Tables → Data → Pushed → Option Data
after_types t d p = elim p.reply [
  | got _ rest ↦ elim (link t.trans t.indices p.pushed) [
    | none ↦ none
    | some ts ↦ finish d ts p.pushed (read_abbreviation t.counts.charcnt rest)
  ]
  | throws ↦ some (record d { localtimes = p.pushed })
  | fault ↦ none
]

unfoldable pub try_read : Bytes → Data → Option Data
try_read file d = elim (read_tables file) [
  | got t rest ↦ after_types t d (read_types (rounds t.counts.typecnt) d.localtimes rest)
  | throws ↦ some d
  | fault ↦ none
]

-- `none` for the file is one that cannot be opened.
unfoldable pub read_time_zone_file : Option Bytes → Data → Option (Bool × Data)
read_time_zone_file none d = some (false, d)
read_time_zone_file (some file) d = elim (try_read file d) [
  | none ↦ none
  | some d' ↦ some (true, d')
]

abbrev pub empty_data : Data
empty_data = record { transitions = []; localtimes = []; abbreviation = [] }

-- The constructor from a file: a zone with no data if the reader answers false.
unfoldable pub zone_of_file : Option Bytes → Option (Option Data)
zone_of_file zonefile = elim (read_time_zone_file zonefile empty_data) [
  | none ↦ none
  | some (ok, d) ↦ some (if ok then some d else none)
]

-- `TimeZone::valid`.
unfoldable pub valid : Option Data → Bool
valid none = false
valid (some d) = true
