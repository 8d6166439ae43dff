-- ===== src/Calendar/TimeZone/ReadBack/Vectors.antt =====
-- The vectors of a zone file, written for the reader of glacier/base/timezone.cc.
use glacier.Common.{
  ◌<◌, ◌≡◌, refl, arith, some, List, [], ◌∷◌, ◌++◌, append_assoc, append-nil, get_elem?, length,
  if◌then◌else◌, Bytes,
}
use glacier.Common.Int.{ℤ, ◌+ℤ◌}
use glacier.Calendar.TimeZone.{Transition, Localtime}
use glacier.Calendar.TimeZone.File.{
  got, read_u_int8, read_trans, read_indices, read_type, read_types, link,
}
use glacier.Calendar.TimeZone.ReadBack.Header.{IsInt32, write_int32, read_int32-write_int32}

abbrev pub write_trans : List Transition → Bytes → Bytes
write_trans [] rest = rest
write_trans (t ∷ ts) rest = write_int32 t.gmttime ++ write_trans ts rest

abbrev pub write_indices : List Transition → Bytes → Bytes
write_indices [] rest = rest
write_indices (t ∷ ts) rest = t.localtime_idx ∷ write_indices ts rest

abbrev pub write_types : List Localtime → Bytes → Bytes
write_types [] rest = rest
write_types (l ∷ ls) rest =
    write_int32 l.gmt_offset ++ ((if l.is_dst then 1 else 0) ∷ l.arrb_idx ∷ write_types ls rest)

abbrev pub times_of : List Transition → List ℤ
times_of [] = []
times_of (t ∷ ts) = t.gmttime ∷ times_of ts

abbrev pub indices_of : List Transition → Bytes
indices_of [] = []
indices_of (t ∷ ts) = t.localtime_idx ∷ indices_of ts

-- The transitions fit the file and the local times.
abbrev pub Linked : List Localtime → List Transition → Type 0
Linked ls [] = Unit
Linked ls (t ∷ ts) =
    IsInt32 t.gmttime
    × (t.localtime_idx < 256)
    × ((l : Localtime) × (get_elem? ls t.localtime_idx ≡ some l)
        × (t.localtime ≡ t.gmttime +ℤ l.gmt_offset))
    × Linked ls ts

abbrev pub Storable : List Localtime → Type 0
Storable [] = Unit
Storable (l ∷ ls) = IsInt32 l.gmt_offset × (l.arrb_idx < 256) × Storable ls

pub read_trans-write_trans :
    (ls : List Localtime) (ts : List Transition) (rest : Bytes)
    → Linked ls ts
    → read_trans (length ts) (write_trans ts rest) ≡ got (times_of ts) rest
unfolding read_trans
read_trans-write_trans ls [] rest h = refl
read_trans-write_trans ls (t ∷ ts) rest h = ground (
  arith,
  read_int32-write_int32 t.gmttime (write_trans ts rest) h.0,
  read_trans-write_trans ls ts rest h.3,
)

pub read_indices-write_indices :
    (ts : List Transition) (rest : Bytes)
    → read_indices (length ts) (write_indices ts rest) ≡ got (indices_of ts) rest
unfolding read_indices read_u_int8
read_indices-write_indices [] rest = refl
read_indices-write_indices (t ∷ ts) rest = ground (arith, read_indices-write_indices ts rest)

pub read_type-write :
    (l : Localtime) (rest : Bytes)
    → IsInt32 l.gmt_offset
    → read_type (write_types (l ∷ []) rest) ≡ got l rest
unfolding read_type read_u_int8
read_type-write l rest h =
    ground (
      arith,
      read_int32-write_int32 l.gmt_offset ((if l.is_dst then 1 else 0) ∷ l.arrb_idx ∷ rest) h,
    )

pub read_types-write_types :
    (ls pushed : List Localtime) (rest : Bytes)
    → Storable ls
    → read_types (length ls) pushed (write_types ls rest)
      ≡ record { pushed = pushed ++ ls; reply = got tt rest }
unfolding read_types
read_types-write_types [] pushed rest h = rw append-nil
read_types-write_types (l ∷ ls) pushed rest h = ground (
  arith,
  read_type-write l (write_types ls rest) h.0,
  read_types-write_types ls (pushed ++ l ∷ []) rest h.2,
  append_assoc pushed (l ∷ []) ls,
)

pub link-times_of :
    (ls : List Localtime) (ts : List Transition)
    → Linked ls ts
    → link (times_of ts) (indices_of ts) ls ≡ some ts
unfolding link
link-times_of ls [] h = refl
link-times_of ls (t ∷ ts) h =
    let (l, at, loc) = h.2 in ground (arith, at, link-times_of ls ts h.3, loc)
