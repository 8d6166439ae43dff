-- ===== src/Calendar/TimeZone/Lookup.antt =====
-- `findLocaltime` of glacier/base/timezone.cc against a plain scan of the transitions.
use glacier.Common.{
  ℕ, ◌+◌, ◌≤◌, ◌<◌, ◌≡◌, refl, List, [], ◌∷◌, arith, get_elem?, if◌then◌else◌, Bool-cases, inl, inr,
  ap, sym, ◌∙◌,
}
use glacier.Common.Int.{ℤ, pos_part, neg_part, ltb_ℤ}
use glacier.Calendar.TimeZone.{
  Transition, Comp, Localtime, Data, less, equal, lower_bound, pick, find_in, find_localtime,
}

-- The time by which a comparison orders the transitions.
abbrev pub key : Comp → Transition → ℤ
key c t = if c.compare_gmt then t.gmttime else t.localtime

abbrev pub ◌<ℤ◌ : ℤ → ℤ → Type 0
◌<ℤ◌ a b = pos_part a + neg_part b < pos_part b + neg_part a

-- Every transition of the list is after the time.
abbrev After : Comp → ℤ → List Transition → Type 0
After c k [] = Unit
After c k (t ∷ ts) = ◌<ℤ◌ k (key c t) × After c k ts

-- The transitions are in strictly ascending order.
abbrev pub Ascending : Comp → List Transition → Type 0
Ascending c [] = Unit
Ascending c (t ∷ ts) = After c (key c t) ts × Ascending c ts

-- The local time in force: that of the last transition not after the time, or the one given.
abbrev pub in_force : Comp → ℤ → ℕ → List Transition → ℕ
in_force c k idx [] = idx
in_force c k idx (t ∷ ts) = in_force c k (if ltb_ℤ k (key c t) then idx else t.localtime_idx) ts

After-trans :
    (c : Comp) (j k : ℤ) (ts : List Transition)
    → pos_part j + neg_part k ≤ pos_part k + neg_part j
    → After c k ts
    → After c j ts
After-trans c j k [] le h = tt
After-trans c j k (t ∷ ts) le h = (omega (arith, h.0), After-trans c j k ts le h.1)

in_force-After :
    (c : Comp) (k : ℤ) (idx : ℕ) (ts : List Transition) → After c k ts → in_force c k idx ts ≡ idx
in_force-After c k idx [] h = refl
in_force-After c k idx (t ∷ ts) h = ground (arith, in_force-After c k idx ts, h.0)

pick-lower_bound :
    (c : Comp) (sentry before : Transition) (ts : List Transition)
    → Ascending c ts
    → pick c sentry (lower_bound c sentry before ts)
      ≡ in_force c (key c sentry) before.localtime_idx ts
unfolding pick lower_bound less equal
pick-lower_bound c s b [] h = refl
pick-lower_bound c s b (t ∷ ts) h = ground (
  arith,
  pick-lower_bound c s t ts h.1,
  After-trans c (key c s) (key c t) ts,
  in_force-After c (key c s) t.localtime_idx ts,
  in_force-After c (key c s) b.localtime_idx ts,
  h.0,
)

find_in-in_force :
    (c : Comp) (s : Transition) (ls : List Localtime) (ts : List Transition)
    → Ascending c ts
    → find_in ts ls s c ≡ get_elem? ls (in_force c (key c s) 0 ts)
unfolding find_in
find_in-in_force c s ls [] h = refl
find_in-in_force c s ls (t ∷ ts) h = elim (Bool-cases (less c s t)) [
  | inl early ↦ rw early (
      ap (get_elem? ls) (
        sym (
          in_force-After c (key c s) 0 (t ∷ ts)
            (unfold less in ground (arith, After-trans c (key c s) (key c t) ts, h.0)))))
  | inr late ↦
      rw late (ap (get_elem? ls) (pick-lower_bound c s t (t ∷ ts) h ∙ unfold less in ground arith))
]

-- Over transitions in ascending order the binary search finds the local time in force; before the
-- first transition it is the first local time.
pub find_localtime-in_force :
    (d : Data) (sentry : Transition) (c : Comp)
    → Ascending c d.transitions
    → find_localtime d sentry c ≡ get_elem? d.localtimes (in_force c (key c sentry) 0 d.transitions)
unfolding find_localtime
find_localtime-in_force d sentry c h = find_in-in_force c sentry d.localtimes d.transitions h
