-- ===== src/Server/Services/Msgs/Paging.antt =====
-- Paging through a chat: what `MsgService::list` gives, and how its pages fit together.
use chat.Base.{
  ◌≡◌, refl, ℤ, pos, negsuc, eq_ℤ, ltb_ℤ, Bool, true, false, ◌&&◌, List, [], ◌∷◌, ◌++◌, All,
  All-weaken, All-select, select, arith, Bool-cases, inl, inr, has_key, DistinctKeys, if◌then◌else◌,
}
use chat.Core.{Message}
use chat.Server.Sql.Rows.{place, order_desc}
use chat.Server.Invariant.{message_key}

-- each id is greater than all that follow
abbrev pub IsDescending : List Message → Type 0
IsDescending [] = Unit
IsDescending (m ∷ ms) = All (λ x. ltb_ℤ x.id m.id ≡ true) ms × IsDescending ms

pub ltb_ℤ-trans : (a b c : ℤ) → ltb_ℤ a b ≡ true → ltb_ℤ b c ≡ true → ltb_ℤ a c ≡ true
ltb_ℤ-trans (pos a) b c h k = ground arith
ltb_ℤ-trans (negsuc a) b c h k = ground arith

-- two ids that are not the same are in one order or the other
ltb_ℤ-total : (a b : ℤ) → ltb_ℤ a b ≡ false → eq_ℤ b a ≡ false → ltb_ℤ b a ≡ true
ltb_ℤ-total (pos a) b h k = ground arith
ltb_ℤ-total (negsuc a) b h k = ground arith

ltb_ℤ-irrefl : (a : ℤ) → ltb_ℤ a a ≡ false
ltb_ℤ-irrefl (pos a) = ground arith
ltb_ℤ-irrefl (negsuc a) = ground arith

pub All-place :
    (P : Message → Type 0) (m : Message) (ms : List Message) → P m → All P ms → All P (place m ms)
unfolding place
All-place P m [] p h = (p, tt)
All-place P m (x ∷ xs) p h = ground (arith, All-place P m xs p h.1)

pub All-order : (P : Message → Type 0) (ms : List Message) → All P ms → All P (order_desc ms)
unfolding order_desc
All-order P [] h = tt
All-order P (m ∷ ms) h = All-place P m (order_desc ms) h.0 (All-order P ms h.1)

-- the rows of a list have ids other than `z`
abbrev pub Absent : ℤ → List Message → Type 0
Absent z ms = All (λ x. eq_ℤ x.id z ≡ false) ms

Absent-of_has_key : (z : ℤ) (ms : List Message) → has_key message_key z ms ≡ false → Absent z ms
Absent-of_has_key z [] h = tt
Absent-of_has_key z (m ∷ ms) h = ground (arith, Absent-of_has_key z ms)

place-IsDescending :
    (m : Message) (ms : List Message) → Absent m.id ms → IsDescending ms → IsDescending (place m ms)
unfolding place
place-IsDescending m [] a d = (tt, tt)
place-IsDescending m (x ∷ xs) a d = elim (Bool-cases (ltb_ℤ m.id x.id)) [
  | inl less ↦
      rw less
        (All-place (λ y. ltb_ℤ y.id x.id ≡ true) m xs less d.0, place-IsDescending m xs a.1 d.1)
  | inr more ↦
      let above : ltb_ℤ x.id m.id ≡ true = ltb_ℤ-total m.id x.id more a.0 in
      rw more (
        (
          above,
          All-weaken (λ y. ltb_ℤ y.id x.id ≡ true) _ (λ y l. ltb_ℤ-trans y.id x.id m.id l above) xs
              d.0,
        ),
        d,
      )
]

pub order_desc-IsDescending :
    (ms : List Message) → DistinctKeys message_key ms → IsDescending (order_desc ms)
unfolding order_desc
order_desc-IsDescending [] d = tt
order_desc-IsDescending (m ∷ ms) d =
    place-IsDescending m (order_desc ms) (All-order _ ms (Absent-of_has_key m.id ms d.0))
      (order_desc-IsDescending ms d.1)

-- A message above all others is put first.
place_top :
    (m : Message) (ms : List Message) → All (λ y. ltb_ℤ m.id y.id ≡ false) ms → place m ms ≡ m ∷ ms
unfolding place
place_top m [] h = refl
place_top m (x ∷ xs) h = rw (h.0)

ltb_ℤ-asym : (a b : ℤ) → ltb_ℤ a b ≡ true → ltb_ℤ b a ≡ false
ltb_ℤ-asym (pos a) b h = ground arith
ltb_ℤ-asym (negsuc a) b h = ground arith

module _ (q : Message → Bool) where
  select-place :
      (m : Message) (ms : List Message)
      → IsDescending ms
      → Absent m.id ms
      → select q (place m ms) ≡ (if q m then place m (select q ms) else select q ms)
  unfolding place
  select-place m [] d a = refl
  select-place m (x ∷ xs) d a = elim (Bool-cases (ltb_ℤ m.id x.id)) [
    | inl less ↦ ground (arith, select-place m xs d.1 a.1)
    | inr more ↦
        let above : ltb_ℤ x.id m.id ≡ true = ltb_ℤ-total m.id x.id more a.0 in
        let later =
          All-weaken (λ y. ltb_ℤ y.id x.id ≡ true) (λ y. ltb_ℤ m.id y.id ≡ false)
            (λ y l. ltb_ℤ-asym y.id m.id (ltb_ℤ-trans y.id x.id m.id l above)) xs d.0 in
        ground (
          arith,
          place_top m (select q (x ∷ xs))
              (All-select (λ y. ltb_ℤ m.id y.id ≡ false) q (x ∷ xs) (more, later)),
        )
  ]

  -- Rows may be chosen before or after they are ordered.
  pub select-order_desc :
      (ms : List Message)
      → DistinctKeys message_key ms
      → select q (order_desc ms) ≡ order_desc (select q ms)
  unfolding order_desc
  select-order_desc [] d = refl
  select-order_desc (m ∷ ms) d = ground (
    arith,
    select-place m (order_desc ms) (order_desc-IsDescending ms d.1)
        (All-order _ ms (Absent-of_has_key m.id ms d.0)),
    select-order_desc ms d.1,
  )

pub select-select :
    (p q : Message → Bool) (ms : List Message)
    → select q (select p ms) ≡ select (λ x. p x && q x) ms
select-select p q [] = refl
select-select p q (m ∷ ms) = ground (arith, select-select p q ms)

select_none :
    (q : Message → Bool) (ms : List Message) → All (λ x. q x ≡ false) ms → select q ms ≡ []
select_none q [] h = refl
select_none q (m ∷ ms) h = rw (h.0) (select_none q ms h.1)

select-All : (q : Message → Bool) (ms : List Message) → All (λ x. q x ≡ true) ms → select q ms ≡ ms
select-All q [] h = refl
select-All q (m ∷ ms) h = rw (h.0, select-All q ms h.1)

pub All-middle :
    (P : Message → Type 0) (front : List Message) (m : Message) (back : List Message)
    → All P (front ++ m ∷ back)
    → P m
All-middle P [] m back h = h.0
All-middle P (x ∷ front) m back h = All-middle P front m back h.1

-- The rows below a row of the list are those behind it.
pub select_below :
    (front : List Message) (m : Message) (back : List Message)
    → IsDescending (front ++ m ∷ back)
    → select (λ x. ltb_ℤ x.id m.id) (front ++ m ∷ back) ≡ back
select_below [] m back d = rw (ltb_ℤ-irrefl m.id) (select-All _ back d.0)
select_below (x ∷ front) m back d =
    rw (ltb_ℤ-asym m.id x.id (All-middle _ front m back d.0)) (select_below front m back d.1)
