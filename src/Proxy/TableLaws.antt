-- ===== src/Proxy/TableLaws.antt =====
-- scripts/proxy.py: the table of rules, under its changes.
use taihu.Base.{
  ◌≡◌, refl, inl, inr, none, some, [], ◌∷◌, ◌++◌, if◌then◌else◌, Text, ◌==◌, ==_iff, ==_refl, arith,
  Bool-cases,
}
use taihu.Proxy.Manager.{Listener, Table, find, without, Poll, round_at}

module _ (name : Text) where
  pub find-append :
      (k : Text) (l : Listener) (t : Table)
      → find name t ≡ none
      → find name (t ++ ((k, l) ∷ [])) ≡ (if k == name then some l else none)
  unfolding find
  find-append k l [] h = refl
  find-append k l ((j, v) ∷ t) h = ground (arith, find-append k l t)

  pub find-without :
      (k : Text) (t : Table) → find name (without k t) ≡ (if k == name then none else find name t)
  unfolding find without
  find-without k [] = ground arith
  find-without k ((j, v) ∷ t) =
      ground (arith, find-without k t, ==_iff j k, ==_iff j name, ==_iff k name)

  pub find-round_at :
      (k : Text) (p : Poll) (t : Table) → find name t ≡ none → find name (round_at k p t) ≡ none
  unfolding find round_at
  find-round_at k p [] h = refl
  find-round_at k p ((j, v) ∷ t) h = ground (arith, find-round_at k p t)

  pub without-append :
      (l : Listener) (t : Table) → find name t ≡ none → without name (t ++ ((name, l) ∷ [])) ≡ t
  unfolding find without
  without-append l [] h = rw (==_refl name)
  without-append l ((j, v) ∷ t) h = ground (arith, without-append l t)

-- The names of a table differ.
abbrev pub Distinct : Table → Type 0
Distinct [] = Unit
Distinct ((k, l) ∷ t) = (find k t ≡ none) × Distinct t

pub Distinct-append :
    (k : Text) (l : Listener) (t : Table)
    → Distinct t
    → find k t ≡ none
    → Distinct (t ++ ((k, l) ∷ []))
unfolding find
Distinct-append k l [] d h = (refl, tt)
Distinct-append k l ((j, v) ∷ t) (f, d) h = (
  ground (arith, find-append j k l t, ==_iff k j, ==_iff j k),
  Distinct-append k l t d (ground arith),
)

pub Distinct-without : (k : Text) (t : Table) → Distinct t → Distinct (without k t)
unfolding without
Distinct-without k [] d = tt
Distinct-without k ((j, v) ∷ t) (f, d) = elim (Bool-cases (j == k)) [
  | inl same ↦ rw same (Distinct-without k t d)
  | inr other ↦ rw other (ground (arith, find-without j k t), Distinct-without k t d)
]

pub Distinct-round_at : (k : Text) (p : Poll) (t : Table) → Distinct t → Distinct (round_at k p t)
unfolding round_at
Distinct-round_at k p [] d = tt
Distinct-round_at k p ((j, v) ∷ t) (f, d) = elim (Bool-cases (j == k)) [
  | inl same ↦ rw same (f, d)
  | inr other ↦ rw other (find-round_at j k p t f, Distinct-round_at k p t d)
]
