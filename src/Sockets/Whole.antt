-- ===== src/Sockets/Whole.antt =====
-- When `writen` of glacier/utils.cc sends the whole string.
use glacier.Common.{
  ℕ, ◌+◌, ◌≤◌, ◌≡◌, refl, sym, ap, ◌∙◌, some, List, [], ◌∷◌, ◌++◌, append-nil, length, take, drop,
  length-drop, Bytes, arith,
}
use glacier.Common.Int.{pos}
use glacier.Sockets.{
  WriteEvent, wrote, write_eintr, write_eagain, write_failed, finished, Written, write_loop,
  WriteResult, finish_writen, writen,
}
use glacier.Sockets.Laws.{Obeys, Conserves, write_loop-Conserves, kept_buffer}

-- The kernel takes so many bytes before anything stops the loop.
abbrev pub taking : List WriteEvent → ℕ
taking (wrote n ∷ es) = n + taking es
taking (write_eintr ∷ es) = taking es
taking _ = 0

write_loop-finished :
    (es : List WriteEvent) (sum : ℕ) (sent bs : Bytes)
    → Obeys es bs
    → length bs ≤ taking es
    → (w : Written) × (write_loop es sum sent bs ≡ some w) × (w.ending ≡ finished)
unfolding write_loop
write_loop-finished es sum sent [] o h = (_, refl, refl)
write_loop-finished [] sum sent (c ∷ cs) o h = absurd (omega arith)
write_loop-finished (wrote n ∷ es) sum sent (c ∷ cs) o h =
    write_loop-finished es (sum + n) (sent ++ take n (c ∷ cs)) (drop n (c ∷ cs)) o.1
      (omega (arith, length-drop n (c ∷ cs), o.0))
write_loop-finished (write_eintr ∷ es) sum sent (c ∷ cs) o h =
    write_loop-finished es sum sent (c ∷ cs) o h
write_loop-finished (write_eagain ∷ es) sum sent (c ∷ cs) o h = absurd (omega arith)
write_loop-finished (write_failed ∷ es) sum sent (c ∷ cs) o h = absurd (omega arith)

finish_writen-finished :
    (buf : Bytes) (w : Written)
    → w.ending ≡ finished
    → Conserves 0 [] buf w
    → ((finish_writen buf w).taken ≡ buf)
      × ((finish_writen buf w).buf ≡ [])
      × ((finish_writen buf w).result ≡ pos (length buf))
unfolding finish_writen
finish_writen-finished buf w f c =
    let sent : w.sent ≡ buf =
      sym (append-nil w.sent) ∙ ap (◌++◌ w.sent) (sym (c.done f)) ∙ c.kept in
    rw (f, finish_writen)
      (sent, kept_buffer buf w c ∙ c.done f, ap pos (omega (arith, c.counted, ap length sent)))

-- When the kernel takes enough, interrupted or not, `writen` returns, the whole string is sent and
-- nothing stays.
pub writen_all :
    (es : List WriteEvent) (buf : Bytes)
    → Obeys es buf
    → length buf ≤ taking es
    → (r : WriteResult) × (writen es buf ≡ some r)
      × (r.taken ≡ buf)
      × (r.buf ≡ [])
      × (r.result ≡ pos (length buf))
unfolding writen
writen_all es buf o h =
    let (w, e, f) = write_loop-finished es 0 [] buf o h in
    let (taken, left, result) =
      finish_writen-finished buf w f (write_loop-Conserves es 0 [] buf o e) in
    (finish_writen buf w, rw (writen, e), taken, left, result)
