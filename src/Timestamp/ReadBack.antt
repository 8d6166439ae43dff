-- ===== src/Timestamp/ReadBack.antt =====
-- The text of a time stamp of glacier/base/timestamp.cc reads back as the stamp.
use native.Mathlib.Nat.{pow-succ', suc-add, zero-add, add-zero, one-mul, mul_assoc}
use glacier.Common.{
  ℕ, zero, suc, ◌+◌, ◌-◌, ◌*◌, ◌/◌, ◌%◌, ◌^◌, ◌≤◌, ◌<◌, ◌≡◌, sym, ap, ◌∙◌, [], ◌∷◌, ◌++◌, length,
  append-nil, true, Bytes, arith,
}
use glacier.Common.Int.{pos, ◌%ℤ◌, /ℤ-pos}
use glacier.Common.Text.{to_string, fill, print_wide}
use glacier.Common.Digits.{
  value_of, value_of-digit, value_of-to_string, length-below, not_negative, print_wide-plain,
}
use glacier.Timestamp.{timestamp, timestamp_text}

value_of-fill :
    (k acc : ℕ) (rest : Bytes) → value_of acc (fill k b'0' ++ rest) ≡ value_of (acc * 10 ^ k) rest
value_of-fill zero acc rest = ap (λ x. value_of x rest) (omega arith)
value_of-fill (suc k) acc rest =
    value_of-digit 0 acc (fill k b'0' ++ rest)
    ∙ value_of-fill k (acc * 10 + 0) rest
    ∙ ap (λ x. value_of x rest) (scale k)
  where
    scale : (k : ℕ) → (acc * 10 + 0) * 10 ^ k ≡ acc * 10 ^ suc k
    scale k = rw (pow-succ' 10 k) (omega arith)

pow-add : (m n : ℕ) → 10 ^ (m + n) ≡ 10 ^ m * 10 ^ n
pow-add zero n = ap (λ k. 10 ^ k) (zero-add n) ∙ sym (one-mul (10 ^ n))
pow-add (suc m) n =
    ap (λ k. 10 ^ k) (suc-add m n)
    ∙ pow-succ' 10 (m + n)
    ∙ ap (λ x. 10 * x) (pow-add m n)
    ∙ rw (pow-succ' 10 m) (omega arith)

-- The six digits of the microseconds.
value_of-print_wide :
    (n acc : ℕ) → n < 10 ^ 6 → value_of acc (print_wide true 6 (pos n)) ≡ acc * 10 ^ 6 + n
unfolding print_wide to_string
value_of-print_wide n acc h =
    let len = length (to_string n) in
    let short = length-below 5 (suc n) n h in
    rw (print_wide, not_negative n, add-zero)
      (value_of-fill (6 - (0 + len)) acc (to_string n)
        ∙ ap (value_of (acc * 10 ^ (6 - (0 + len)))) (sym (append-nil (to_string n)))
        ∙ value_of-to_string n (acc * 10 ^ (6 - (0 + len))) []
        ∙ ap (λ x. x + n)
            (mul_assoc acc (10 ^ (6 - (0 + len))) (10 ^ len)
              ∙ ap (λ x. acc * x)
                  (sym (pow-add (6 - (0 + len)) len) ∙ ap (λ k. 10 ^ k) (six len short))))
  where
    six : (k : ℕ) → k ≤ 6 → 6 - (0 + k) + k ≡ 6
    six k h = omega arith

%ℤ-pos : (a : ℕ) → pos a %ℤ 1000000 ≡ pos (a % 1000000)
unfolding ◌%ℤ◌
%ℤ-pos a = ground arith

-- The digits of a printed stamp, its point left out, are the microseconds since the epoch, for every stamp
-- from the epoch on.
pub value_of-timestamp_text : (t : ℕ) → value_of 0 (timestamp_text (timestamp (pos t))) ≡ t
unfolding timestamp_text
value_of-timestamp_text t =
    let s = t / 1000000 in
    let u = t % 1000000 in
    rw (/ℤ-pos t 1000000, %ℤ-pos t, print_wide-plain s)
      (value_of-to_string s 0 (b'.' ∷ print_wide true 6 (pos u))
        ∙ ap (λ x. value_of x (print_wide true 6 (pos u))) (first (10 ^ length (to_string s)) s)
        ∙ value_of-print_wide u s (omega arith)
        ∙ whole)
  where
    first : (p s : ℕ) → 0 * p + s ≡ s
    first p s = omega arith

    whole : t / 1000000 * 10 ^ 6 + t % 1000000 ≡ t
    whole = omega arith
