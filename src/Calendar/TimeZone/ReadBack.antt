-- ===== src/Calendar/TimeZone/ReadBack.antt =====
-- A writer of zone files, and what `readTimeZoneFile` of glacier/base/timezone.cc makes of them.
pub mod Header
pub mod Vectors
use glacier.Common.{
  ℕ, ◌-◌, ◌/◌, ◌%◌, ◌^◌, ◌<◌, ◌≡◌, refl, ap, ◌∙◌, arith, true, false, none, some, List, [], ◌∷◌,
  ◌++◌, append_assoc, append-nil, get_elem?, length, take, length-append, drop-append, take-append,
  ltb, if◌then◌else◌, Bytes, Bool-cases, inl, inr,
}
use glacier.Common.Int.{ℤ, pos, negsuc, ◌+ℤ◌}
use glacier.Common.Text.{codes, str_eq}
use glacier.Calendar.Date.{Tm}
use glacier.Calendar.TimeZone.{Transition, Localtime, Data, find_localtime, to_local_time}
use glacier.Calendar.TimeZone.File.{
  got, ◌>>=◌, read_bytes, be32toh, read_int32, read_u_int8, Counts, read_counts, read_trans,
  read_indices, read_type, Pushed, read_types, link, Tables, read_tables, read_abbreviation, finish,
  after_types, try_read, read_time_zone_file, empty_data, zone_of_file, valid,
}
use glacier.Calendar.TimeZone.ReadBack.Header.{
  pattern_of, IsInt32, write_int32, be32toh-write_int32, read_int32-write_int32, read_bytes-append,
  Skipped, Skippable, write_counts, skip_reserved, read_counts-write_counts,
}
use glacier.Calendar.TimeZone.ReadBack.Vectors.{
  write_trans, write_indices, write_types, times_of, indices_of, Linked, Storable,
  read_trans-write_trans, read_indices-write_indices, read_type-write, read_types-write_types,
  link-times_of,
}

abbrev counts_of : Data → Counts
counts_of d = record {
  timecnt = pos (length d.transitions);
  typecnt = pos (length d.localtimes);
  charcnt = pos (length d.abbreviation);
}

-- The zone file for a zone, with any bytes behind it.
abbrev pub write_zone : Skipped → Data → Bytes → Bytes
write_zone s d rest =
    let ts = d.transitions in
    write_counts s (counts_of d)
      (write_trans ts (write_indices ts (write_types d.localtimes (d.abbreviation ++ rest))))

pub record IsStorable (d : Data) : Type 0 where
  pub linked : Linked d.localtimes d.transitions
  pub storable : Storable d.localtimes
  pub timecnt_in : length d.transitions < 2 ^ 31
  pub typecnt_in : length d.localtimes < 2 ^ 31
  pub charcnt_in : length d.abbreviation < 2 ^ 31

module _ (s : Skipped) (d : Data) (rest : Bytes) (k : Skippable s) (v : IsStorable d) where
  tables_of : Tables
  tables_of = record {
    counts = counts_of d;
    trans = times_of d.transitions;
    indices = indices_of d.transitions;
  }

  behind_types : Bytes
  behind_types = d.abbreviation ++ rest

  read_tables-write_zone :
      read_tables (write_zone s d rest) ≡ got tables_of (write_types d.localtimes behind_types)
  unfolding read_tables tables_of behind_types
  read_tables-write_zone =
      let ts = d.transitions in
      rw (
        read_tables,
        ◌>>=◌,
        read_counts-write_counts s (counts_of d) _ k v.timecnt_in v.typecnt_in v.charcnt_in,
        ◌>>=◌,
        ◌>>=◌,
        read_trans-write_trans d.localtimes ts _ v.linked,
        ◌>>=◌,
        read_indices-write_indices ts _,
      )

  read_types_result : Pushed
  read_types_result = record { pushed = d.localtimes; reply = got tt behind_types }

  after_types-result : after_types tables_of empty_data read_types_result ≡ some d
  unfolding after_types finish read_abbreviation tables_of behind_types read_types_result
  after_types-result = rw (
    after_types,
    link-times_of d.localtimes d.transitions v.linked,
    finish,
    read_abbreviation,
    read_bytes-append d.abbreviation rest,
  )

  after_types-read_types :
      after_types tables_of empty_data
        (read_types (length d.localtimes) [] (write_types d.localtimes behind_types))
      ≡ some d
  unfolding read_types_result
  after_types-read_types =
      ap (after_types tables_of empty_data)
        (read_types-write_types d.localtimes [] behind_types v.storable)
      ∙ after_types-result

  -- `readTimeZoneFile` reads back every zone that its format can hold, whatever the bytes that it
  -- skips and those behind the zone.
  pub read_time_zone_file-write_zone :
      read_time_zone_file (some (write_zone s d rest)) empty_data ≡ some (true, d)
  unfolding read_time_zone_file try_read tables_of
  read_time_zone_file-write_zone =
      rw (read_time_zone_file, try_read, read_tables-write_zone, after_types-read_types)

-- A file that does not begin with `TZif` still makes a valid zone, and every conversion to local time by that zone reads an empty vector.
pub zone_of_file_not_tzif :
    (file : Bytes)
    → str_eq (take 4 file) (codes "TZif") ≡ false
    → (d : Data) × (zone_of_file (some file) ≡ some (some d))
      × (valid (some d) ≡ true)
      × ((gmtime : ℤ → Tm) (seconds : ℤ) → to_local_time gmtime (λ _. seconds) d seconds ≡ none)
unfolding zone_of_file read_time_zone_file try_read read_tables read_counts read_bytes valid
    to_local_time find_localtime
zone_of_file_not_tzif file h = (empty_data, ground arith, refl, λ g s. refl)
