-- ===== src/Proxy/Lifecycle.antt =====
-- scripts/proxy.py: the life of a rule and of its listener thread, under any interleaving of requests
-- and of the threads' rounds.
use taihu.Base.{
  ℕ, ◌+◌, ◌≤◌, if◌then◌else◌, zero, suc, ◌≡◌, refl, ◌∙◌, ◌⊎◌, inl, inr, true, false, Option, none,
  some, List, [], ◌∷◌, ◌++◌, Text, ◌==◌, ==_refl, arith, All, Option-cases, Bool-cases,
}
use taihu.Proxy.Rule.{Rule, Raised, Result, ok, raised, validate}
use taihu.Proxy.Manager.{
  Listener, Table, Manager, find, without, launch, start, add, retire, remove, Poll, serve_round,
  round_at, round_retired,
}
use taihu.Proxy.TableLaws.{
  find-append, without-append, Distinct, Distinct-append, Distinct-without, Distinct-round_at,
}

-- An entry of the table: under its rule's name, validated, and not told to stop.
abbrev pub IsServed : Text × Listener → Type 0
IsServed (name, l) = (name ≡ l.rule.name) × (validate l.rule ≡ ok tt) × (l.stop ≡ false)

-- The listener of a removed rule: told to stop, its socket closed.
abbrev pub IsRetired : Listener → Type 0
IsRetired l = (l.stop ≡ true) × (l.open_sock ≡ false)

pub record IsConsistent (m : Manager) : Type 0 where
  pub distinct : Distinct m.rules
  pub served : All IsServed m.rules
  pub retired : All IsRetired m.retired

All-append :
    (t : Table) (e : Text × Listener) → All IsServed t → IsServed e → All IsServed (t ++ (e ∷ []))
All-append [] e h s = (s, tt)
All-append (x ∷ t) e (p, h) s = (p, All-append t e h s)

All-without : (k : Text) (t : Table) → All IsServed t → All IsServed (without k t)
unfolding without
All-without k [] h = tt
All-without k ((j, v) ∷ t) (p, h) = elim (Bool-cases (j == k)) [
  | inl same ↦ rw same (All-without k t h)
  | inr other ↦ rw other (p, All-without k t h)
]

pub serve_round-keeps :
    (p : Poll) (l : Listener)
    → ((serve_round p l).rule ≡ l.rule) × ((serve_round p l).stop ≡ l.stop)
unfolding serve_round
serve_round-keeps p l = ground arith

serve_round-IsServed :
    (name : Text) (p : Poll) (l : Listener) → IsServed (name, l) → IsServed (name, serve_round p l)
serve_round-IsServed name p l (n, v, s) =
    let (r, t) = serve_round-keeps p l in (rw r n, rw r v, t ∙ s)

serve_round-IsRetired : (p : Poll) (l : Listener) → IsRetired l → IsRetired (serve_round p l)
unfolding serve_round
serve_round-IsRetired p l h = ground arith

All-round_at : (k : Text) (p : Poll) (t : Table) → All IsServed t → All IsServed (round_at k p t)
unfolding round_at
All-round_at k p [] h = tt
All-round_at k p ((j, v) ∷ t) (s, h) = elim (Bool-cases (j == k)) [
  | inl same ↦ rw same (serve_round-IsServed j p v s, h)
  | inr other ↦ rw other (s, All-round_at k p t h)
]

All-round_retired :
    (i : ℕ) (p : Poll) (ls : List Listener)
    → All IsRetired ls
    → All IsRetired (round_retired i p ls)
unfolding round_retired
All-round_retired i p [] h = tt
All-round_retired zero p (l ∷ ls) (r, h) = (serve_round-IsRetired p l r, h)
All-round_retired (suc i) p (l ∷ ls) (r, h) = (r, All-round_retired i p ls h)

-- Requests, and rounds of the threads, in any order.
pub data Step : Manager → Manager → Type 0 where
  adding : (bind_error : Option Text) (rule : Rule) (m : Manager) → Step m (add bind_error rule m).1
  removing : (name : Text) (m : Manager) → Step m (remove name m).1
  serving :
      (name : Text) (p : Poll) (m : Manager) → Step m (record m { rules = round_at name p m.rules })
  draining :
      (i : ℕ) (p : Poll) (m : Manager) → Step m (record m { retired = round_retired i p m.retired })

pub data Reach (m : Manager) : Manager → Type 0 where
  here : Reach m m
  next : {a b : Manager} → Reach m a → Step a b → Reach m b

start-IsConsistent :
    (e : Option Text) (r : Rule) (m : Manager) (v : Result (Unit {0}))
    → IsConsistent m
    → find r.name m.rules ≡ none
    → validate r ≡ v
    → IsConsistent (start e r m v).1
unfolding start
start-IsConsistent e r m (raised x) c fresh h = c
start-IsConsistent (some x) r m (ok u) c fresh h = c
start-IsConsistent none r m (ok u) c fresh h = record {
  distinct = Distinct-append r.name (launch r) m.rules c.distinct fresh;
  served = All-append m.rules (r.name, launch r) c.served (refl, h, refl);
  retired = c.retired;
}

pub add-IsConsistent :
    (e : Option Text) (r : Rule) (m : Manager) → IsConsistent m → IsConsistent (add e r m).1
unfolding add
add-IsConsistent e r m c = elim (Option-cases (find r.name m.rules)) [
  | inr (l, found) ↦ rw (found, add) c
  | inl fresh ↦ rw (fresh, add) (start-IsConsistent e r m (validate r) c fresh refl)
]

pub remove-IsConsistent :
    (name : Text) (m : Manager) → IsConsistent m → IsConsistent (remove name m).1
unfolding remove
remove-IsConsistent name m c = elim (Option-cases (find name m.rules)) [
  | inl missing ↦ rw (missing, remove) c
  | inr (l, found) ↦
      rw (found, remove)
        (record {
          distinct = Distinct-without name m.rules c.distinct;
          served = All-without name m.rules c.served;
          retired = ((refl, refl), c.retired);
        })
]

Step-IsConsistent : {m n : Manager} → Step m n → IsConsistent m → IsConsistent n
Step-IsConsistent (adding e r m) c = add-IsConsistent e r m c
Step-IsConsistent (removing name m) c = remove-IsConsistent name m c
Step-IsConsistent (serving name p m) c = record {
  distinct = Distinct-round_at name p m.rules c.distinct;
  served = All-round_at name p m.rules c.served;
  retired = c.retired;
}
Step-IsConsistent (draining i p m) c = record {
  distinct = c.distinct;
  served = c.served;
  retired = All-round_retired i p m.retired c.retired;
}

-- Whatever the requests and the order of the threads' rounds, names stay distinct, every rule of the
-- table is valid and has not been told to stop, and every removed listener has.
pub Reach-IsConsistent : {m n : Manager} → IsConsistent m → Reach m n → IsConsistent n
Reach-IsConsistent c here = c
Reach-IsConsistent c (next r s) = Step-IsConsistent s (Reach-IsConsistent c r)

-- The steps of a thread, with what its polls would answer.
abbrev pub steps : List Poll → Listener → Listener
steps [] l = l
steps (p ∷ ps) l = steps ps (serve_round p l)

-- The connections that a thread may still hand on once its listener is told to stop.
abbrev pub pending : Listener → ℕ
pending l = if l.selecting then 1 else 0

-- A listener that has ended, with at most `n` connections handed on.
abbrev pub HasEnded : ℕ → Listener → Type 0
HasEnded n l = (l.alive ≡ false) × (l.open_sock ≡ false) × (l.accepted ≤ n)

serve_round-HasEnded :
    (n : ℕ) (p : Poll) (l : Listener) → HasEnded n l → HasEnded n (serve_round p l)
unfolding serve_round
serve_round-HasEnded n p l h = ground arith

steps-HasEnded : (n : ℕ) (ps : List Poll) (l : Listener) → HasEnded n l → HasEnded n (steps ps l)
steps-HasEnded n [] l h = h
steps-HasEnded n (p ∷ ps) l h = steps-HasEnded n ps (serve_round p l) (serve_round-HasEnded n p l h)

two_rounds :
    (p q : Poll) (l : Listener)
    → IsRetired l
    → HasEnded (l.accepted + pending l) (serve_round q (serve_round p l))
unfolding serve_round
two_rounds p q l h = ground arith

-- Two or more steps after its removal the thread of a listener has ended and its socket is closed,
-- whatever the polls answer. It has handed on one more connection at most, and none unless the removal
-- fell between the test of the stop event and the poll.
pub serve_round-retired :
    (p q : Poll) (ps : List Poll) (l : Listener)
    → IsRetired l
    → HasEnded (l.accepted + pending l) (steps (p ∷ q ∷ ps) l)
serve_round-retired p q ps l h =
    steps-HasEnded (l.accepted + pending l) ps (serve_round q (serve_round p l))
      (two_rounds p q l h)

-- Adding a valid rule under a new name and removing it gives the rule back, restores the table and
-- leaves its listener to end.
pub remove-add :
    (r : Rule) (m : Manager)
    → find r.name m.rules ≡ none
    → validate r ≡ ok tt
    → remove r.name (add none r m).1
      ≡ (ok r, record { rules = m.rules; retired = retire (launch r) ∷ m.retired })
unfolding add start remove
remove-add r m fresh valid =
    let found : find r.name (m.rules ++ ((r.name, launch r) ∷ [])) ≡ some (launch r) =
      find-append r.name r.name (launch r) m.rules fresh ∙ rw (==_refl r.name) in
    rw (fresh, add)
      (rw (valid, start) (rw (found, remove) (rw (without-append r.name (launch r) m.rules fresh))))

-- How an `add` of `r` to `m` can end, with the bind error `e`.
abbrev pub Added : Option Text → Rule → Manager → Result Rule × Manager → Type 0
Added e r m (result, m') =
    (((x : Raised) × (result ≡ raised x)) × (m' ≡ m))
    ⊎ ((result ≡ ok r)
        × (e ≡ none)
        × (validate r ≡ ok tt)
        × (find r.name m.rules ≡ none)
        × (m' ≡ record m { rules = m.rules ++ ((r.name, launch r) ∷ []) }))

start-Added :
    (e : Option Text) (r : Rule) (m : Manager) (v : Result (Unit {0}))
    → find r.name m.rules ≡ none
    → validate r ≡ v
    → Added e r m (start e r m v)
unfolding start
start-Added e r m (raised x) fresh h = inl ((x, refl), refl)
start-Added (some x) r m (ok u) fresh h = inl ((_, refl), refl)
start-Added none r m (ok u) fresh h = inr (refl, refl, h, fresh, refl)

-- A request to add that fails changes nothing; one that succeeds returns the rule, which is valid,
-- under a name that was free, on an address that the system let it bind, with a new listener.
pub add-Added : (e : Option Text) (r : Rule) (m : Manager) → Added e r m (add e r m)
unfolding add
add-Added e r m = elim (Option-cases (find r.name m.rules)) [
  | inr (l, found) ↦ rw (found, add) (inl ((_, refl), refl))
  | inl fresh ↦ rw (fresh, add) (rw fresh at (start-Added e r m (validate r) fresh refl))
]
