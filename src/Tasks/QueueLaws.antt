-- ===== src/Tasks/QueueLaws.antt =====
-- What the task lists and counts add up to.
use taihu.Base.{
  All, ◌≢◌, ℕ, suc, ◌+◌, ◌≡◌, ◌⊎◌, refl, arith, inl, inr, Bool, true, false, not, ◌&&◌, ◌||◌,
  Bool-cases, none, some, List, [], ◌∷◌, ◌++◌, if◌then◌else◌, Text, lit, ◌==◌, ==_iff, length,
}
use taihu.Json.{Json, str}
use taihu.Tasks.Info.{
  TaskInfo, Entry, Loaded, no_task, skipped, task, type_error, load_task, iter_active_tasks,
  add_loaded,
}
use taihu.Tasks.Queue.{
  is_text, Stats, count_priority, count_tasks, is_hashable, get_task_stats, no_tasks,
}

-- The number of tasks whose priority is the text.
unfoldable pub with_priority : Text → List TaskInfo → ℕ
with_priority p [] = 0
with_priority p (t ∷ ts) =
    let rest = with_priority p ts in if is_text p t.priority then suc rest else rest

-- `n` and one more if the priority is the text.
abbrev plus : Text → Json → ℕ → ℕ
plus p v n = if is_text p v then suc n else n

eq_text : (p q : Text) → (p == q) ≡ true → p ≡ q
eq_text p q h = (==_iff p q).0 h

abbrev Counted : Json → Stats → Stats → Type 0
Counted v s r =
    (r.p0 ≡ plus (lit "P0") v s.p0)
    × (r.p1 ≡ plus (lit "P1") v s.p1)
    × (r.p2 ≡ plus (lit "P2") v s.p2)
    × (r.p3 ≡ plus (lit "P3") v s.p3)
    × (r.total ≡ plus (lit "Total") v s.total)

counted : (v : Json) (s : Stats) → Counted v s (count_priority v s)
unfolding count_priority ◌==◌
counted (str p) s = elim (Bool-cases (p == lit "P0")) [
  | inl e ↦ rw (eq_text p (lit "P0") e) (refl, refl, refl, refl, refl)
  | inr a ↦ elim (Bool-cases (p == lit "P1")) [
    | inl e ↦ rw (eq_text p (lit "P1") e) (refl, refl, refl, refl, refl)
    | inr b ↦ elim (Bool-cases (p == lit "P2")) [
      | inl e ↦ rw (eq_text p (lit "P2") e) (refl, refl, refl, refl, refl)
      | inr c ↦ elim (Bool-cases (p == lit "P3")) [
        | inl e ↦ rw (eq_text p (lit "P3") e) (refl, refl, refl, refl, refl)
        | inr d ↦ elim (Bool-cases (p == lit "Total")) [
          | inl e ↦ rw (eq_text p (lit "Total") e) (refl, refl, refl, refl, refl)
          | inr e ↦ rw (a, b, c, d, e) (refl, refl, refl, refl, refl)
        ]
      ]
    ]
  ]
]
counted _ s = (refl, refl, refl, refl, refl)

-- The counts of the loop, from those it starts with.
abbrev pub CountedAll : Stats → List TaskInfo → Stats → Type 0
CountedAll s ts r =
    (r.p0 ≡ s.p0 + with_priority (lit "P0") ts)
    × (r.p1 ≡ s.p1 + with_priority (lit "P1") ts)
    × (r.p2 ≡ s.p2 + with_priority (lit "P2") ts)
    × (r.p3 ≡ s.p3 + with_priority (lit "P3") ts)
    × (r.total ≡ s.total + length ts + with_priority (lit "Total") ts)

count_tasks-CountedAll :
    (s r : Stats) (ts : List TaskInfo) → count_tasks s ts ≡ some r → CountedAll s ts r
unfolding count_tasks with_priority
count_tasks-CountedAll s r [] h =
    let e : r ≡ s = cc in rw e (omega arith, omega arith, omega arith, omega arith, omega arith)
count_tasks-CountedAll s r (t ∷ ts) h = elim (Bool-cases (is_hashable t.priority)) [
  | inr e ↦ ground arith
  | inl e ↦
      let (a, b, c, d, f) = counted t.priority s in
      let next = count_priority t.priority s in
      let (p, q, u, v, w) =
        count_tasks-CountedAll (record next { total = suc next.total }) r ts
          (rw (e, count_tasks) at h) in
      (ground arith, ground arith, ground arith, ground arith, ground arith)
]

-- The counts of the priorities are those of the tasks, and the total is the number of tasks, with
-- each task whose priority is "Total" counted twice.
pub get_task_stats-CountedAll :
    (ts : List TaskInfo) (r : Stats) → get_task_stats ts ≡ some r → CountedAll no_tasks ts r
unfolding get_task_stats
get_task_stats-CountedAll ts r h = count_tasks-CountedAll no_tasks r ts h

abbrev pub Among : TaskInfo → List TaskInfo → Type 0
Among t [] = ⊥
Among t (u ∷ ts) = (u ≡ t) ⊎ Among t ts

-- The entries that count: directories but `archive`.
abbrev pub is_candidate : Entry → Bool
is_candidate e = e.is_directory && not (e.entry_name == lit "archive")

-- The task is that of a directory that counts.
abbrev pub Source : TaskInfo → List Entry → Type 0
Source t [] = ⊥
Source t (e ∷ es) = ((is_candidate e ≡ true) × (load_task e ≡ task t)) ⊎ Source t es

-- The task.json of an entry that counts does not end the iteration.
abbrev pub Loads : Entry → Type 0
Loads e = is_candidate e ≡ true → load_task e ≢ type_error

-- The iteration gives a list, with the tasks of the directories that count and no others.
abbrev pub Listing : List Entry → Type 0
Listing es =
    (ts : List TaskInfo) × (iter_active_tasks es ≡ some ts)
    × ((t : TaskInfo) → Source t es → Among t ts)
    × ((t : TaskInfo) → Among t ts → Source t es)

add_loaded-none : (b : Bool) (l : Loaded) → (if b then none else add_loaded l none) ≡ none
add_loaded-none true l = refl
add_loaded-none false no_task = refl
add_loaded-none false (skipped reason) = refl
add_loaded-none false type_error = refl
add_loaded-none false (task t) = refl

passed :
    (e : Entry)
    → is_candidate e ≡ true
    → (not e.is_directory || e.entry_name == lit "archive") ≡ false
passed e c = ground arith

not_counted :
    (e : Entry)
    → (not e.is_directory || e.entry_name == lit "archive") ≡ true
    → is_candidate e ≡ true
    → ⊥
not_counted e s c = ground arith

counted_entry :
    (e : Entry)
    → (not e.is_directory || e.entry_name == lit "archive") ≡ false
    → is_candidate e ≡ true
counted_entry e s = ground arith

-- If no task.json of a directory but `archive` ends the iteration, it lists the tasks of these
-- directories, each that can be loaded, and no others.
pub iter_active_tasks-Listed : (es : List Entry) → All Loads es → Listing es
unfolding iter_active_tasks
iter_active_tasks-Listed [] h = ([], refl, λ t s. s, λ t a. a)
iter_active_tasks-Listed (e ∷ es) h =
    let (ts, i, f, g) = iter_active_tasks-Listed es h.1 in
    elim (Bool-cases (not e.is_directory || e.entry_name == lit "archive")) [
      | inl s ↦ (
        ts,
        rw (iter_active_tasks, s) i,
        λ t x. elim x [ inl c ↦ absurd (not_counted e s c.0) | inr y ↦ f t y ],
        λ t a. inr (g t a),
      )
      | inr s ↦ go ts i f g (counted_entry e s) s (load_task e) refl
    ]
  where
    go :
        (ts : List TaskInfo)
        → iter_active_tasks es ≡ some ts
        → ((t : TaskInfo) → Source t es → Among t ts)
        → ((t : TaskInfo) → Among t ts → Source t es)
        → is_candidate e ≡ true
        → (not e.is_directory || e.entry_name == lit "archive") ≡ false
        → (l : Loaded) → load_task e ≡ l
        → Listing (e ∷ es)
    go ts i f g c s no_task l = (
      ts,
      rw (iter_active_tasks, s, l) i,
      λ t x. elim x [ inl y ↦ ground arith | inr y ↦ f t y ],
      λ t a. inr (g t a),
    )
    go ts i f g c s (skipped r) l = (
      ts,
      rw (iter_active_tasks, s, l) i,
      λ t x. elim x [ inl y ↦ ground arith | inr y ↦ f t y ],
      λ t a. inr (g t a),
    )
    go ts i f g c s type_error l = absurd (h.0 c l)
    go ts i f g c s (task u) l = (
      u ∷ ts,
      rw (iter_active_tasks, s, l, i) refl,
      λ t x. elim x [ inl y ↦ inl (ground arith) | inr y ↦ inr (f t y) ],
      λ t a. elim a [ inl y ↦ inl (c, ground arith) | inr y ↦ inr (g t y) ],
    )

-- One task.json whose children are no list ends the iteration for all tasks.
pub iter_active_tasks-type_error :
    (es fs : List Entry) (e : Entry)
    → is_candidate e ≡ true
    → load_task e ≡ type_error
    → iter_active_tasks (es ++ (e ∷ fs)) ≡ none
unfolding iter_active_tasks
iter_active_tasks-type_error [] fs e c l = rw (passed e c, l) refl
iter_active_tasks-type_error (x ∷ es) fs e c l =
    let rest = iter_active_tasks-type_error es fs e c l in
    rw rest (add_loaded-none (not x.is_directory || x.entry_name == lit "archive") (load_task x))
