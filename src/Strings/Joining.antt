-- ===== src/Strings/Joining.antt =====
-- Laws of `Path::join`.
use chat.Base.{
  ℕ, ◌≡◌, ◌≢◌, refl, sym, ◌∙◌, Text, false, [], ◌∷◌, ◌++◌, arith, append_assoc, Bool-cases, inl,
  inr,
}
use chat.Strings.{join, starts_with, ends_with}
use chat.Strings.Splitting.{Lacks}

starts_with_front : (d : ℕ) (s r : Text) → s ≢ [] → starts_with d (s ++ r) ≡ starts_with d s
starts_with_front d [] r h = absurd (h refl)
starts_with_front d (c ∷ s) r h = refl

-- What is joined may be continued before or after.
pub join-append : (base s r : Text) → s ≢ [] → join base (s ++ r) ≡ join base s ++ r
unfolding join
join-append [] s r h = refl
join-append (b ∷ base) s r h = elim (Bool-cases (starts_with b'/' s)) [
  | inl rooted ↦ rw (starts_with_front b'/' s r h, rooted) refl
  | inr under ↦ elim (Bool-cases (ends_with b'/' (b ∷ base))) [
    | inl closed ↦ rw (starts_with_front b'/' s r h, under, closed, append_assoc base s r) refl
    | inr open_ended ↦
        rw (starts_with_front b'/' s r h, under, open_ended, append_assoc base (b'/' ∷ s) r) refl
  ]
]

ends_with_part : (d : ℕ) (s : Text) → Lacks d s → ends_with d s ≡ false
ends_with_part d [] h = refl
ends_with_part d (c ∷ []) h = ground arith
ends_with_part d (c ∷ e ∷ s) h = ends_with_part d (e ∷ s) h.1

ends_with_back : (d : ℕ) (a s : Text) → s ≢ [] → Lacks d s → ends_with d (a ++ s) ≡ false
ends_with_back d [] s h k = ends_with_part d s k
ends_with_back d (c ∷ []) [] h k = absurd (h refl)
ends_with_back d (c ∷ []) (e ∷ s) h k = ends_with_part d (e ∷ s) k
ends_with_back d (c ∷ e ∷ a) s h k = ends_with_back d (e ∷ a) s h k

starts_with_part : (d : ℕ) (s : Text) → Lacks d s → starts_with d s ≡ false
starts_with_part d [] h = refl
starts_with_part d (c ∷ s) h = ground arith

ends_with-join : (base s : Text) → s ≢ [] → Lacks b'/' s → ends_with b'/' (join base s) ≡ false
unfolding join
ends_with-join [] s h k = ends_with_part b'/' s k
ends_with-join (b ∷ base) s h k = elim (Bool-cases (ends_with b'/' (b ∷ base))) [
  | inl closed ↦ rw (starts_with_part b'/' s k, closed) (ends_with_back b'/' (b ∷ base) s h k)
  | inr open_ended ↦
      rw (starts_with_part b'/' s k, open_ended)
        (rw (sym (append_assoc base (b'/' ∷ []) s))
          (ends_with_back b'/' (b ∷ base ++ b'/' ∷ []) s h k))
]

join_under :
    (a r : Text)
    → a ≢ []
    → ends_with b'/' a ≡ false
    → starts_with b'/' r ≡ false
    → join a r ≡ a ++ b'/' ∷ r
unfolding join
join_under [] r h e s = absurd (h refl)
join_under (c ∷ a) r h e s = rw (s, e) refl

join-ne-nil : (base s : Text) → s ≢ [] → join base s ≢ []
unfolding join
join-ne-nil [] s h = h
join-ne-nil (b ∷ base) s h = elim (Bool-cases (starts_with b'/' s)) [
  | inl rooted ↦ rw rooted h
  | inr under ↦ elim (Bool-cases (ends_with b'/' (b ∷ base))) [
    | inl closed ↦ rw (under, closed) (λ e. cc e)
    | inr open_ended ↦ rw (under, open_ended) (λ e. cc e)
  ]
]

-- To join a directory and then what is in it is to join both at once.
pub join-join :
    (base dir r : Text)
    → dir ≢ []
    → Lacks b'/' dir
    → starts_with b'/' r ≡ false
    → join (join base dir) r ≡ join base (dir ++ b'/' ∷ r)
join-join base dir r h k s =
    join_under (join base dir) r (join-ne-nil base dir h) (ends_with-join base dir h k) s
    ∙ sym (join-append base dir (b'/' ∷ r) h)
