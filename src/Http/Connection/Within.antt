-- ===== src/Http/Connection/Within.antt =====
-- The stages of `handleRead` of glacier/httpdata.cc read nothing.
use glacier.Common.{
  ℕ, zero, suc, ◌≡◌, true, false, Option, none, some, if◌then◌else◌, Bool-cases, ◌⊎◌, inl, inr,
}
use glacier.Common.Int.{ℤ, pos, negsuc}
use glacier.Sockets.{ReadResult}
use glacier.Http.{
  HttpData, disconnecting, HttpMethod, post, get, head, UriState, parse_uri_again, parse_uri_error,
  parse_uri_success, HeaderState, parse_header_success, parse_header_again, parse_header_error,
  AnalysisState, analysis_success, analysis_error,
}
use glacier.Http.ProcessState.{parse_uri, parse_headers, analysis, finish}
use glacier.Http.Response.{World, FileSystem, Analysed, analysis_of, analysis_request}
use glacier.Http.Connection.{
  Outcome, breaks, proceeds, unknown, and_then, bad_request, after_uri, uri_stage, after_headers,
  headers_stage, analysis_stage, from_analysis, from_headers, from_uri, after_readn,
  is_disconnecting,
}
use glacier.Http.Connection.Answers.{
  Left, Within, WithinAnalysed, bad_request-Within, answer_get-Within,
}

analysis_stage-Within :
    (n : ℕ) (fs : FileSystem) (d : HttpData) (w : World)
    → Left n w
    → Within n (analysis_stage fs d w)
unfolding analysis_stage analysis_of analysis_request
analysis_stage-Within n fs d w h = go _ (method d.method)
  where
    method : (m : HttpMethod) → WithinAnalysed n (analysis_of m fs d w)
    method get = answer_get-Within n fs _ _ w h
    method post = h
    method head = h

    stage :
        (a : Analysed) (f : AnalysisState)
        → Left n a.world_after
        → Within n (elim f [
          | analysis_success ↦ breaks (record a.data_after { state = finish }) a.world_after
          | analysis_error ↦ breaks (record a.data_after { error = true }) a.world_after
        ])
    stage a analysis_success h = h
    stage a analysis_error h = h

    go :
        (m : Option Analysed)
        → WithinAnalysed n m
        → Within n (elim m [
          | none ↦ unknown
          | some a ↦ elim a.flag [
            | analysis_success ↦ breaks (record a.data_after { state = finish }) a.world_after
            | analysis_error ↦ breaks (record a.data_after { error = true }) a.world_after
          ]
        ])
    go none h = tt
    go (some a) h = stage a a.flag h

after_uri-Within :
    (n : ℕ) (w : World) (p : HttpData × UriState) → Left n w → Within n (after_uri w p)
unfolding after_uri
after_uri-Within n w (d, parse_uri_again) h = h
after_uri-Within n w (d, parse_uri_error) h = bad_request-Within n _ w h
after_uri-Within n w (d, parse_uri_success) h = h

after_headers-Within :
    (n : ℕ) (w : World) (p : HttpData × HeaderState) → Left n w → Within n (after_headers w p)
unfolding after_headers
after_headers-Within n w (d, parse_header_again) h = h
after_headers-Within n w (d, parse_header_error) h = bad_request-Within n _ w h
after_headers-Within n w (d, parse_header_success) h = h

and_then-Within :
    (n : ℕ) (o : Outcome) (f : HttpData → World → Outcome)
    → Within n o
    → ((d : HttpData) (w : World) → Left n w → Within n (f d w))
    → Within n (and_then o f)
unfolding and_then
and_then-Within n (breaks d w) f h k = h
and_then-Within n (proceeds d w) f h k = k d w h
and_then-Within n unknown f h k = tt

from_analysis-Within :
    (n : ℕ) (fs : FileSystem) (d : HttpData) (w : World)
    → Left n w
    → Within n (from_analysis fs d w)
unfolding from_analysis
from_analysis-Within n fs d w h =
    elim d.state
      as (λ s. Within n (elim s [ analysis ↦ analysis_stage fs d w | _ ↦ proceeds d w ])) [
        | analysis ↦ analysis_stage-Within n fs d w h
        | _ ↦ h
      ]

from_headers-Within :
    (n : ℕ) (fs : FileSystem) (d : HttpData) (w : World) → Left n w → Within n (from_headers fs d w)
unfolding from_headers headers_stage
from_headers-Within n fs d w h =
    elim d.state
      as (λ s. Within n (elim s [
        | parse_headers ↦ and_then (headers_stage d w) (from_analysis fs)
        | _ ↦ from_analysis fs d w
      ])) [
        | parse_headers ↦
            and_then-Within n _ _ (after_headers-Within n w _ h) (from_analysis-Within n fs)
        | _ ↦ from_analysis-Within n fs d w h
      ]

from_uri-Within :
    (n : ℕ) (fs : FileSystem) (d : HttpData) (w : World) → Left n w → Within n (from_uri fs d w)
unfolding from_uri uri_stage
from_uri-Within n fs d w h =
    elim d.state
      as (λ s. Within n (elim s [
        | parse_uri ↦ and_then (uri_stage d w) (from_headers fs)
        | _ ↦ from_headers fs d w
      ])) [
        | parse_uri ↦ and_then-Within n _ _ (after_uri-Within n w _ h) (from_headers-Within n fs)
        | _ ↦ from_headers-Within n fs d w h
      ]

pub after_readn-Within :
    (n : ℕ) (fs : FileSystem) (r : ReadResult) (d : HttpData) (w : World)
    → Left n w
    → Within n (after_readn fs r d w)
unfolding after_readn
after_readn-Within n fs r d w h = elim (Bool-cases (is_disconnecting d.connstate)) [
  | inl y ↦ rw (after_readn, y) h
  | inr y ↦ rw (after_readn, y) (go r.cnt (Bool-cases r.zero))
]
  where
    d' : HttpData
    d' = record d { connstate = if r.zero then disconnecting else d.connstate }

    go :
        (c : ℤ)
        → (r.zero ≡ true) ⊎ (r.zero ≡ false)
        → Within n (elim c [
          | negsuc n ↦ bad_request d w
          | pos zero ↦ if r.zero then breaks d' w else from_uri fs d' w
          | pos (suc n) ↦ from_uri fs d' w
        ])
    go (negsuc k) z = bad_request-Within n d w h
    go (pos zero) (inl z) = rw z h
    go (pos zero) (inr z) = rw z (from_uri-Within n fs _ w h)
    go (pos (suc k)) z = from_uri-Within n fs d' w h
