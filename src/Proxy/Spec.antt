-- ===== src/Proxy/Spec.antt =====
-- scripts/proxy.py: the manager as its clients see it, a partial map from names to rules, and the
-- manager's steps as steps on that map.
use taihu.Base.{
  ◌≡◌, refl, ap, Bool, true, false, Option, none, some, [], ◌∷◌, ◌++◌, if◌then◌else◌, Text, ◌==◌,
  ==_iff, arith, inl, inr, Bool-cases, Option-cases,
}
use taihu.Proxy.Rule.{Rule, Result, ok, raised, validate}
use taihu.Proxy.Manager.{
  Listener, Table, Manager, find, without, launch, start, add, remove, Poll, serve_round, round_at,
}
use taihu.Proxy.TableLaws.{find-without}
use taihu.Proxy.Lifecycle.{Step, adding, removing, serving, draining, serve_round-keeps}

abbrev pub rule_of : Option Listener → Option Rule
rule_of none = none
rule_of (some l) = some l.rule

-- The abstract state: the rule of each name.
unfoldable pub view : Table → Text → Option Rule
view t name = rule_of (find name t)

-- The steps that the specification allows: nothing is seen, a valid rule takes a free name, or the rule
-- of a name goes.
pub data Allowed (a b : Text → Option Rule) : Type 0 where
  unseen : ((n : Text) → b n ≡ a n) → Allowed a b
  inserted :
      (r : Rule)
      → a r.name ≡ none
      → validate r ≡ ok tt
      → ((n : Text) → b n ≡ (if r.name == n then some r else a n))
      → Allowed a b
  deleted :
      (name : Text) (r : Rule)
      → a name ≡ some r
      → ((n : Text) → b n ≡ (if name == n then none else a n))
      → Allowed a b

view-append :
    (k n : Text) (l : Listener) (t : Table)
    → find k t ≡ none
    → view (t ++ ((k, l) ∷ [])) n ≡ (if k == n then some l.rule else view t n)
unfolding view find
view-append k n l [] h = ground arith
view-append k n l ((j, v) ∷ t) h = elim (Bool-cases (j == n)) [
  | inl e ↦
      let same : j ≡ n = (==_iff j n).0 e in
      let apart : (k == n) ≡ false = ground (arith, ==_iff k n, ==_iff j k) in rw (e, apart) refl
  | inr e ↦ rw e (view-append k n l t (ground arith))
]

rule_of-if :
    (b : Bool) (o : Option Listener)
    → rule_of (if b then none else o) ≡ (if b then none else rule_of o)
rule_of-if true o = refl
rule_of-if false o = refl

view-without : (k n : Text) (t : Table) → view (without k t) n ≡ (if k == n then none else view t n)
unfolding view
view-without k n t = rw (find-without n k t) (rule_of-if (k == n) (find n t))

seen :
    (b : Bool) (l v : Listener) (o : Option Listener)
    → l.rule ≡ v.rule
    → rule_of (if b then some l else o) ≡ rule_of (if b then some v else o)
seen true l v o e = ap some e
seen false l v o e = refl

seen_rest :
    (b : Bool) (v : Listener) (o p : Option Listener)
    → rule_of o ≡ rule_of p
    → rule_of (if b then some v else o) ≡ rule_of (if b then some v else p)
seen_rest true v o p e = refl
seen_rest false v o p e = e

view-round_at : (k n : Text) (p : Poll) (t : Table) → view (round_at k p t) n ≡ view t n
unfolding view find round_at
view-round_at k n p [] = refl
view-round_at k n p ((j, v) ∷ t) = elim (Bool-cases (j == k)) [
  | inl e ↦ rw e (seen (j == n) (serve_round p v) v (find n t) (serve_round-keeps p v).0)
  | inr e ↦ rw e (seen_rest (j == n) v (find n (round_at k p t)) (find n t) (view-round_at k n p t))
]

view-fresh : (n : Text) (t : Table) → find n t ≡ none → view t n ≡ none
unfolding view
view-fresh n t h = ap rule_of h

start-Allowed :
    (e : Option Text) (r : Rule) (m : Manager) (v : Result (Unit {0}))
    → find r.name m.rules ≡ none
    → validate r ≡ v
    → Allowed (view m.rules) (view (start e r m v).1.rules)
unfolding start
start-Allowed e r m (raised x) fresh h = unseen (λ n. refl)
start-Allowed (some x) r m (ok u) fresh h = unseen (λ n. refl)
start-Allowed none r m (ok u) fresh h =
    inserted r (view-fresh r.name m.rules fresh) h
      (λ n. view-append r.name n (launch r) m.rules fresh)

add-Allowed :
    (e : Option Text) (r : Rule) (m : Manager) → Allowed (view m.rules) (view (add e r m).1.rules)
unfolding add
add-Allowed e r m = elim (Option-cases (find r.name m.rules)) [
  | inr (l, found) ↦ rw (found, add) (unseen (λ n. refl))
  | inl fresh ↦ rw (fresh, add) (start-Allowed e r m (validate r) fresh refl)
]

view-found : (n : Text) (l : Listener) (t : Table) → find n t ≡ some l → view t n ≡ some l.rule
unfolding view
view-found n l t h = ap rule_of h

remove-Allowed : (name : Text) (m : Manager) → Allowed (view m.rules) (view (remove name m).1.rules)
unfolding remove
remove-Allowed name m = elim (Option-cases (find name m.rules)) [
  | inl missing ↦ rw (missing, remove) (unseen (λ n. refl))
  | inr (l, found) ↦
      rw (found, remove)
        (deleted name l.rule (view-found name l m.rules found) (λ n. view-without name n m.rules))
]

-- Every step of the manager is one of the specification: a request inserts a valid rule under a free
-- name, deletes a rule or is refused unseen, and no round of a listener thread is seen.
pub Step-Allowed : {m n : Manager} → Step m n → Allowed (view m.rules) (view n.rules)
Step-Allowed (adding e r m) = add-Allowed e r m
Step-Allowed (removing name m) = remove-Allowed name m
Step-Allowed (serving name p m) = unseen (λ n. view-round_at name n p m.rules)
Step-Allowed (draining i p m) = unseen (λ n. refl)
