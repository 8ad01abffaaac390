-- ===== src/Active/Isolation.antt =====
-- .trellis/scripts/common/active_task.py: a shell ticket never gives one window the key of another.
use taihu.Base.{
  ◌≡◌, refl, arith, Bool, true, false, Option, none, some, List, [], ◌∷◌, if◌then◌else◌, Text,
  ==_refl, ==_iff, elem, All,
}
use taihu.Json.{Fields}
use taihu.Files.Tree.{FilePath}
use taihu.Active.Tickets.{
  Process, matching_ticket_context_key, candidates, add_key, the_only, lookup_shell_ticket,
}

elem-here : (k : Text) (keys : List Text) → elem k (k ∷ keys) ≡ true
unfolding elem
elem-here k keys = rw (==_refl k) refl

elem-only : (l k : Text) → elem l (k ∷ []) ≡ true → l ≡ k
unfolding elem
elem-only l k h = ground (arith, ==_iff l k)

All-map {ℓ κ μ} :
    {A : Type ℓ} {P : A → Type κ} {Q : A → Type μ}
    → ((a : A) → P a → Q a)
    → (xs : List A) → All P xs
    → All Q xs
All-map f [] h = tt
All-map f (x ∷ xs) (p, h) = (f x p, All-map f xs h)

module _ (proc : Process) where
  add_key-elem : (k : Text) (keys : List Text) → elem k (add_key proc (some k) keys) ≡ true
  add_key-elem k keys = go (elem k keys) refl
    where
      go : (b : Bool) → elem k keys ≡ b → elem k (if b then keys else k ∷ keys) ≡ true
      go true e = e
      go false e = elem-here k keys

  add_key-keeps :
      (k : Text) (o : Option Text) (keys : List Text)
      → elem k keys ≡ true
      → elem k (add_key proc o keys) ≡ true
  unfolding elem
  add_key-keeps k none keys h = h
  add_key-keeps k (some l) keys h = ground arith

  -- A ticket adds nothing to the keys, or the key that is there.
  abbrev pub Agrees : FilePath → Text → Fields → Type 0
  Agrees repo k t = (l : Text) → matching_ticket_context_key proc repo t ≡ some l → l ≡ k

  candidates-elem :
      (repo : FilePath) (keys : List Text) (ts : List Fields)
      → ((l : Text) → elem l (candidates proc repo ts) ≡ true → elem l keys ≡ true)
      → All
          (λ t. (l : Text) → matching_ticket_context_key proc repo t ≡ some l → elem l keys ≡ true)
          ts
  unfolding candidates
  candidates-elem repo keys [] h = tt
  candidates-elem repo keys (t ∷ ts) h = (
    (λ l e. h l (rw e (add_key-elem l (candidates proc repo ts)))),
    candidates-elem repo keys ts (λ l e.
        h l
          (add_key-keeps l (matching_ticket_context_key proc repo t) (candidates proc repo ts) e)),
  )

  the_only-singleton : (keys : List Text) (k : Text) → the_only proc keys ≡ some k → keys ≡ k ∷ []
  the_only-singleton [] k h = ground arith
  the_only-singleton (l ∷ []) k h = cc
  the_only-singleton (l ∷ m ∷ keys) k h = ground arith

  -- Where the tickets give a key, every ticket that matches holds that key: with two keys among them
  -- there is none.
  pub lookup_shell_ticket-Agrees :
      (tickets : List Fields) (repo : FilePath) (k : Text)
      → lookup_shell_ticket proc tickets (some repo) ≡ some k
      → All (Agrees repo k) tickets
  unfolding lookup_shell_ticket
  lookup_shell_ticket-Agrees tickets repo k h =
      let only = the_only-singleton (candidates proc repo tickets) k h in
      All-map (λ t m l e. elem-only l k (m l e)) tickets
        (candidates-elem repo (k ∷ []) tickets (λ l e. rw only at e))
