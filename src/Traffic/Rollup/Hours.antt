-- ===== src/Traffic/Rollup/Hours.antt =====
-- What inserting the sums of an hour does to the hourly table.
use zenith_panel.Common.{
  ℕ, ◌+◌, ◌%◌, ◌≤◌, ◌<◌, ◌≡◌, refl, ◌∙◌, sym, ap, subst, arith, ◌⊎◌, inl, inr, List, [], ◌∷◌,
  Option, none, some, Bool, true, false, ◌&&◌, nat_beq, nat_beq_iff, ltb, leb, if◌then◌else◌, ◌==◌,
  Bool-cases,
}
use zenith_panel.Common.Assoc.{lookup, lookup-assign}
use zenith_panel.Common.Sums.{or_nil}
use zenith_panel.Traffic.Egress.{DestStat, add_stat, stat_addition}
use zenith_panel.Traffic.Rollup.{
  hour_secs, HotRow, HourKey, hour_key_eq, Hourly, group_of, groups, insert_new, insert_all,
}

abbrev or_else : Option DestStat → Option DestStat → Option DestStat
or_else none b = b
or_else (some a) b = some a

none_else : (o : Option DestStat) → o ≡ or_else o none
none_else none = refl
none_else (some a) = refl

else_assoc : (a b c : Option DestStat) → or_else (or_else a b) c ≡ or_else a (or_else b c)
else_assoc none b c = refl
else_assoc (some x) b c = refl

lookup-insert_new :
    (k j : HourKey) (v : DestStat) (m : Hourly)
    → lookup k (insert_new (j, v) m) ≡ or_else (lookup k m) (if j == k then some v else none)
unfolding insert_new
lookup-insert_new k j v m =
    ground (arith, lookup-assign j k v m, hour_key_eq.equal_iff j k, none_else (lookup k m))

-- What was there stays, and the first of the new rows comes in.
lookup-insert_all :
    (k : HourKey) (rows m : Hourly)
    → lookup k (insert_all rows m) ≡ or_else (lookup k m) (lookup k rows)
unfolding insert_all lookup
lookup-insert_all k [] m = none_else (lookup k m)
lookup-insert_all k ((j, v) ∷ rows) m =
    lookup-insert_all k rows (insert_new (j, v) m)
    ∙ ap (λ o. or_else o (lookup k rows)) (lookup-insert_new k j v m)
    ∙ else_assoc (lookup k m) (if j == k then some v else none) (lookup k rows)
    ∙ ap (or_else (lookup k m)) (one_else (j == k) v (lookup k rows))
  where
    one_else :
        (b : Bool) (v : DestStat) (o : Option DestStat)
        → or_else (if b then some v else none) o ≡ (if b then some v else o)
    one_else true v o = refl
    one_else false v o = refl

lookup-groups :
    (k : HourKey) (h : ℕ) (rows : List HotRow) → ¬ (k.hour ≡ h) → lookup k (groups h rows) ≡ none
unfolding groups lookup
lookup-groups k h [] other = refl
lookup-groups k h (row ∷ rows) other =
    elim (Bool-cases (leb h row.bucket && ltb row.bucket (h + hour_secs))) [
      | inr e ↦ rw (e, groups) (lookup-groups k h rows other)
      | inl e ↦
          rw (e, groups)
            (lookup-assign (group_of h row) k _ (groups h rows)
              ∙ ap
                  (λ b.
                    if b
                    then some (
                        add_stat (or_nil stat_addition (lookup (group_of h row) (groups h rows)))
                          row.stat)
                    else lookup k (groups h rows))
                  (differs (group_of h row == k) refl)
              ∙ lookup-groups k h rows other)
    ]
  where
    differs : (b : Bool) → (group_of h row == k) ≡ b → (group_of h row == k) ≡ false
    differs true e = absurd (
        other (sym (ap (λ (j : HourKey). j.hour) ((hour_key_eq.equal_iff (group_of h row) k).0 e))))
    differs false e = e

-- No hourly row is wrong: each is the sum of its hour's hot rows.
abbrev pub IsRight : List HotRow → Hourly → Type 0
IsRight hot m = (k : HourKey) → (lookup k m ≡ none) ⊎ (lookup k m ≡ lookup k (groups k.hour hot))

-- The hours behind `first` up to `wm` are complete.
abbrev pub IsDone : ℕ → ℕ → List HotRow → Hourly → Type 0
IsDone first wm hot m =
    (k : HourKey)
    → first < k.hour
    → k.hour ≤ wm
    → k.hour % hour_secs ≡ 0
    → lookup k m ≡ lookup k (groups k.hour hot)

at_hour :
    (h : ℕ) (hot : List HotRow) (m : Hourly) (k : HourKey)
    → IsRight hot m
    → k.hour ≡ h
    → lookup k (insert_all (groups h hot) m) ≡ lookup k (groups k.hour hot)
at_hour h hot m k right same =
    lookup-insert_all k (groups h hot) m
    ∙ ap (λ g. or_else (lookup k m) (lookup k (groups g hot))) (sym same)
    ∙ kept (lookup k m) (lookup k (groups k.hour hot)) (right k)
  where
    kept : (a b : Option DestStat) → (a ≡ none) ⊎ (a ≡ b) → or_else a b ≡ b
    kept none b one = refl
    kept (some v) b (inl e) = absurd (ground (arith, e))
    kept (some v) b (inr e) = e

off_hour :
    (h : ℕ) (hot : List HotRow) (m : Hourly) (k : HourKey)
    → ¬ (k.hour ≡ h)
    → lookup k (insert_all (groups h hot) m) ≡ lookup k m
off_hour h hot m k other =
    lookup-insert_all k (groups h hot) m
    ∙ ap (or_else (lookup k m)) (lookup-groups k h hot other)
    ∙ sym (none_else (lookup k m))

same_or_not : (a b : ℕ) → (a ≡ b) ⊎ (¬ (a ≡ b))
same_or_not a b = elim (Bool-cases (nat_beq a b)) [
  | inl e ↦ inl ((nat_beq_iff a b).0 e)
  | inr e ↦ inr (λ same. ground (arith, e, same))
]

pub insert_all-IsRight :
    (h : ℕ) (hot : List HotRow) (m : Hourly)
    → IsRight hot m
    → IsRight hot (insert_all (groups h hot) m)
insert_all-IsRight h hot m right k = elim (same_or_not k.hour h) [
  | inl same ↦ inr (at_hour h hot m k right same)
  | inr other ↦
      subst (λ o. (o ≡ none) ⊎ (o ≡ lookup k (groups k.hour hot))) (sym (off_hour h hot m k other))
        (right k)
]

-- Between two neighbouring hours there is none.
next_hour :
    (wm h : ℕ)
    → wm < h
    → wm % hour_secs ≡ 0
    → h ≤ wm + hour_secs
    → h % hour_secs ≡ 0
    → h ≡ wm + hour_secs
next_hour wm h b a w z = omega (arith, b, a, w, z)

pub insert_all-IsDone :
    (first wm : ℕ) (hot : List HotRow) (m : Hourly)
    → wm % hour_secs ≡ 0
    → IsRight hot m
    → IsDone first wm hot m
    → IsDone first (wm + hour_secs) hot (insert_all (groups (wm + hour_secs) hot) m)
insert_all-IsDone first wm hot m aligned right done k after within whole =
    elim (same_or_not k.hour (wm + hour_secs)) [
      | inl same ↦ at_hour (wm + hour_secs) hot m k right same
      | inr other ↦
          off_hour (wm + hour_secs) hot m k other
          ∙ done k after (before k.hour aligned within whole other) whole
    ]
  where
    before :
        (h : ℕ)
        → wm % hour_secs ≡ 0
        → h ≤ wm + hour_secs
        → h % hour_secs ≡ 0
        → ¬ (h ≡ wm + hour_secs)
        → h ≤ wm
    before h a w z other = elim (Bool-cases (leb h wm)) [
      | inl e ↦ ground (arith, e)
      | inr e ↦ absurd (other (next_hour wm h (ground (arith, e)) a w z))
    ]

pub insert_again-IsDone :
    (first wm h : ℕ) (hot : List HotRow) (m : Hourly)
    → IsRight hot m
    → IsDone first wm hot m
    → IsDone first wm hot (insert_all (groups h hot) m)
insert_again-IsDone first wm h hot m right done k after within whole = elim (same_or_not k.hour h) [
  | inl same ↦ at_hour h hot m k right same
  | inr other ↦ off_hour h hot m k other ∙ done k after within whole
]
