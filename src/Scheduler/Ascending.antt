-- ===== src/Scheduler/Ascending.antt =====
-- Lists of texts in ascending order: they are equal if they hold the same texts.
use potluck.Prelude.{
  ◌≡◌, refl, sym, ap, ◌∙◌, inl, inr, true, false, List, [], ◌∷◌, All, All-mem, Text, text_eq,
  text_eq_iff, text_eq_refl, text_lt, text_lt_asymmetric, Bool-cases, Bool-set, arith, subst,
}
use potluck.Scheduler.Listing.{IsAscending, has, has_iff}

less_of_has :
    (s t : Text) (ss : List Text)
    → All (λ u. text_lt s u ≡ true) ss
    → has t ss ≡ true
    → text_lt s t ≡ true
less_of_has s t ss after h =
    All-mem (λ u. text_lt s u ≡ true) ss t (λ _. Bool-set _ _) after ((has_iff t ss).0 h)

not_before_itself :
    (s : Text) (ss : List Text) → All (λ u. text_lt s u ≡ true) ss → has s ss ≡ false
not_before_itself s ss after = ground (arith, less_of_has s s ss after, text_lt_asymmetric s s)

-- The heads of ascending lists of the same texts are equal.
head_of_same :
    (s t : Text) (ss ts : List Text)
    → All (λ u. text_lt s u ≡ true) ss
    → All (λ u. text_lt t u ≡ true) ts
    → has t (s ∷ ss) ≡ true
    → has s (t ∷ ts) ≡ true
    → s ≡ t
head_of_same s t ss ts after_s after_t h k = (text_eq_iff s t).0 (
    ground (
      arith,
      text_eq_iff s t,
      text_eq_iff t s,
      less_of_has s t ss after_s,
      less_of_has t s ts after_t,
      text_lt_asymmetric s t,
    ))

tail_of_same :
    (s u : Text) (ss ts : List Text)
    → All (λ v. text_lt s v ≡ true) ss
    → All (λ v. text_lt s v ≡ true) ts
    → has u (s ∷ ss) ≡ has u (s ∷ ts)
    → has u ss ≡ has u ts
tail_of_same s u ss ts after_ss after_ts same = elim (Bool-cases (text_eq s u)) [
  | inl equal ↦
      subst (λ v. has v ss ≡ has v ts) ((text_eq_iff s u).0 equal)
        (not_before_itself s ss after_ss ∙ sym (not_before_itself s ts after_ts))
  | inr other ↦ ground arith
]

-- Ascending lists of the same texts are equal.
pub ascending_unique :
    (l k : List Text) → IsAscending l → IsAscending k → ((t : Text) → has t l ≡ has t k) → l ≡ k
ascending_unique [] [] a b same = refl
ascending_unique [] (t ∷ ts) a b same = absurd (ground (arith, same t, text_eq_refl t))
ascending_unique (s ∷ ss) [] a b same = absurd (ground (arith, same s, text_eq_refl s))
ascending_unique (s ∷ ss) (t ∷ ts) a b same =
    let e : s ≡ t =
      head_of_same s t ss ts a.0 b.0 (ground (arith, same t, text_eq_refl t))
        (ground (arith, same s, text_eq_refl s)) in
    let after : All (λ u. text_lt s u ≡ true) ts =
      subst (λ v. All (λ u. text_lt v u ≡ true) ts) (sym e) b.0 in
    let rest : ss ≡ ts =
      ascending_unique ss ts a.1 b.1
        (λ u. tail_of_same s u ss ts a.0 after (same u ∙ ap (λ v. has u (v ∷ ts)) (sym e))) in
    cc
