-- ===== src/Http/Connection/Answers.antt =====
-- The answers of glacier/httpdata.cc read nothing.
use glacier.Common.{
  ℕ, ◌≤◌, Bool, true, Option, none, some, ◌++◌, length, Bytes, Option-cases, inl, inr,
}
use glacier.Common.Text.{codes}
use glacier.Sockets.{WriteResult, writen_raw}
use glacier.Http.{HttpData, analysis_error}
use glacier.Http.Response.{
  World, FileSystem, Analysed, write_raw, handle_error, not_found, answer_get,
}
use glacier.Http.Connection.{Outcome, breaks, proceeds, unknown, bad_request}

-- At most `n` calls of `read` are left.
abbrev pub Left : ℕ → World → Type 0
Left n w = length w.reads ≤ n

abbrev pub Within : ℕ → Outcome → Type 0
Within n (breaks d w) = Left n w
Within n (proceeds d w) = Left n w
Within n unknown = Unit

abbrev WithinWorld : ℕ → Option World → Type 0
WithinWorld n none = Unit
WithinWorld n (some w) = Left n w

abbrev pub WithinPair : ℕ → Option (HttpData × World) → Type 0
WithinPair n none = Unit
WithinPair n (some (d, w)) = Left n w

abbrev pub WithinAnalysed : ℕ → Option Analysed → Type 0
WithinAnalysed n none = Unit
WithinAnalysed n (some a) = Left n a.world_after

write_raw-Within : (n : ℕ) (bs : Bytes) (w : World) → Left n w → WithinWorld n (write_raw bs w)
unfolding write_raw
write_raw-Within n bs w h = go (writen_raw w.writes bs)
  where
    go :
        (m : Option WriteResult)
        → WithinWorld n (elim m [
          | none ↦ none
          | some r ↦ some (record w { writes = r.unused; sent = w.sent ++ r.taken })
        ])
    go none = tt
    go (some r) = h

handle_error-Within :
    (n k : ℕ) (msg : Bytes) (w : World) → Left n w → WithinWorld n (handle_error k msg w)
unfolding handle_error
handle_error-Within n k msg w h = go _ _ (write_raw-Within n _ w h)
  where
    go :
        (bs : Bytes) (m : Option World)
        → WithinWorld n m
        → WithinWorld n (elim m [ none ↦ none | some w' ↦ write_raw bs w' ])
    go bs none h = tt
    go bs (some w') h = write_raw-Within n bs w' h

pub bad_request-Within : (n : ℕ) (d : HttpData) (w : World) → Left n w → Within n (bad_request d w)
unfolding bad_request
bad_request-Within n d w h = go _ (handle_error-Within n 400 (codes "Bad Request") w h)
  where
    go :
        (m : Option World)
        → WithinWorld n m
        → Within n (elim m [ none ↦ unknown | some w' ↦ breaks (record d { error = true }) w' ])
    go none h = tt
    go (some w') h = h

not_found-Within : (n : ℕ) (d : HttpData) (w : World) → Left n w → WithinAnalysed n (not_found d w)
unfolding not_found
not_found-Within n d w h = go _ (handle_error-Within n 404 (codes "Not Found!") w h)
  where
    go :
        (m : Option World)
        → WithinWorld n m
        → WithinAnalysed n (elim m [
          | none ↦ none
          | some w' ↦ some (record { data_after = d; world_after = w'; flag = analysis_error })
        ])
    go none h = tt
    go (some w') h = h

pub answer_get-Within :
    (n : ℕ) (fs : FileSystem) (keep : Bool) (d : HttpData) (w : World)
    → Left n w
    → WithinAnalysed n (answer_get fs keep d w)
unfolding answer_get
answer_get-Within n fs keep d w h = elim (Option-cases (fs.stat d.filename)) [
  | inl e ↦ rw (answer_get, e) (not_found-Within n d w h)
  | inr (size, e) ↦ elim (Option-cases (fs.mapped d.filename size)) [
    | inl f ↦ rw (answer_get, e, f) (not_found-Within n _ w h)
    | inr (body, f) ↦ rw (answer_get, e, f) h
  ]
]
