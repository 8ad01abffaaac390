-- ===== src/Store/RewriteLaws.antt =====
-- .trellis/scripts/common/task_store.py: no reference to the old name of a task is left.
use taihu.Base.{
  ℕ, suc, ◌≡◌, ◌≢◌, refl, ap, sym, ◌∙◌, inl, inr, arith, Bool, true, false, not, ◌&&◌, ◌||◌,
  Bool-cases, Option, some, List, [], ◌∷◌, ◌++◌, if◌then◌else◌, Text, lit, ◌==◌, ==_refl, ==_iff,
  is_empty,
}
use mathlib.Core.List.{map}
use taihu.Json.{Json, str, arr, Items, nil, cons, Fields, get, assign, get-assign}
use taihu.Tasks.Queue.{is_text}
use taihu.Store.Links.{list_or_nil, lists}
use taihu.Store.Rewriting.{
  rename_items, places, label, rename_list, rename_parent, rename_refs, is_value,
}

-- The document refers to the task of that name: as its parent, or in one of its two lists.
unfoldable pub refers : Text → Fields → Bool
refers name d =
    is_value name (get (lit "parent") d)
    || (lists name (list_or_nil (get (lit "children") d))
        || lists name (list_or_nil (get (lit "subtasks") d)))

places-lists :
    (name : Text) (i : ℕ) (items : Items) → is_empty (places name i items) ≡ not (lists name items)
unfolding places lists
places-lists name i nil = refl
places-lists name i (cons v items) = ground (arith, places-lists name (suc i) items)

is_text-str : (s t : Text) → s ≢ t → is_text s (str t) ≡ false
is_text-str s t n = ground (arith, ==_iff t s)

lists-rename_items :
    (old new : Text) (items : Items) → old ≢ new → lists old (rename_items old new items) ≡ false
unfolding rename_items lists
lists-rename_items old new nil n = refl
lists-rename_items old new (cons v items) n =
    ground (arith, lists-rename_items old new items n, is_text-str old new n)

is_empty-map : {A B : Type 0} (f : A → B) (xs : List A) → is_empty (map f xs) ≡ is_empty xs
is_empty-map f [] = refl
is_empty-map f (x ∷ xs) = refl

rename_items_none :
    (old new : Text) (items : Items) → lists old items ≡ false → rename_items old new items ≡ items
unfolding rename_items lists
rename_items_none old new nil h = refl
rename_items_none old new (cons v items) h =
    let first : is_text old v ≡ false = ground arith in
    let others : lists old items ≡ false = ground arith in
    rw (first, rename_items_none old new items others) refl

not-or : (x y z : Bool) → (not x && (not y && not z)) ≡ not (x || (y || z))
not-or x y z = ground arith

module _ (old new : Text) where
  -- One list of references after the renaming.
  record Renamed (key : Text) (d : Fields) (result : Fields × List Text) : Type 0 where
    labelled : is_empty result.1 ≡ not (lists old (list_or_nil (get key d)))
    items : list_or_nil (get key result.0) ≡ rename_items old new (list_or_nil (get key d))
    others : (k : Text) → (key == k) ≡ false → get k result.0 ≡ get k d

  list_at-assign :
      (key : Text) (items : Items) (d : Fields)
      → list_or_nil (get key (assign key (arr items) d)) ≡ items
  list_at-assign key items d = rw (get-assign key key (arr items) d, ==_refl key) refl

  rename_list-Renamed : (key : Text) (d : Fields) → Renamed key d (rename_list old new key d)
  unfolding rename_list
  rename_list-Renamed key d =
      let items = list_or_nil (get key d) in
      let labels = map (label key) (places old 0 items) in
      let count : is_empty labels ≡ not (lists old items) =
        is_empty-map (label key) (places old 0 items) ∙ places-lists old 0 items in
      elim (Bool-cases (lists old items)) [
        | inl e ↦
            let some_label : is_empty labels ≡ false = count ∙ rw e refl in
            rw some_label (record {
              labelled = some_label ∙ rw e refl;
              items = list_at-assign key (rename_items old new items) d;
              others = λ k n. rw (get-assign key k (arr (rename_items old new items)) d, n) refl;
            })
        | inr e ↦
            let no_label : is_empty labels ≡ true = count ∙ rw e refl in
            rw no_label (record {
              labelled = rw e refl;
              items = sym (rename_items_none old new items e);
              others = λ k n. refl;
            })
      ]

  abbrev parent_after : Fields → Option Json
  parent_after d =
      if is_value old (get (lit "parent") d) then some (str new) else get (lit "parent") d

  rename_parent-labelled :
      (d : Fields)
      → is_empty (rename_parent old new d).1 ≡ not (is_value old (get (lit "parent") d))
  unfolding rename_parent
  rename_parent-labelled d = ground arith

  rename_parent-parent :
      (d : Fields) → get (lit "parent") (rename_parent old new d).0 ≡ parent_after d
  unfolding rename_parent
  rename_parent-parent d = elim (Bool-cases (is_value old (get (lit "parent") d))) [
    | inl e ↦
        rw e
          (rw (get-assign (lit "parent") (lit "parent") (str new) d, ==_refl (lit "parent")) refl)
    | inr e ↦ rw e refl
  ]

  rename_parent-others :
      (d : Fields) (k : Text)
      → (lit "parent" == k) ≡ false
      → get k (rename_parent old new d).0 ≡ get k d
  unfolding rename_parent
  rename_parent-others d k n = elim (Bool-cases (is_value old (get (lit "parent") d))) [
    | inl e ↦ rw e (rw (get-assign (lit "parent") k (str new) d, n) refl)
    | inr e ↦ rw e refl
  ]

  abbrev pub list_of : Text → Fields → Items
  list_of key d = list_or_nil (get key d)

  -- What a renaming makes of a document: the new name in the places of the old one, and nothing else.
  pub record RefsRenamed (d : Fields) (result : Fields × List Text) : Type 0 where
    pub no_reference : old ≢ new → refers old result.0 ≡ false
    pub labelled : is_empty result.1 ≡ not (refers old d)
    pub parent : get (lit "parent") result.0 ≡ parent_after d
    pub children :
        list_of (lit "children") result.0 ≡ rename_items old new (list_of (lit "children") d)
    pub subtasks :
        list_of (lit "subtasks") result.0 ≡ rename_items old new (list_of (lit "subtasks") d)
    pub others :
        (k : Text)
        → (lit "parent" == k) ≡ false
        → (lit "children" == k) ≡ false
        → (lit "subtasks" == k) ≡ false
        → get k result.0 ≡ get k d

  is_value_after : (d : Fields) → old ≢ new → is_value old (parent_after d) ≡ false
  is_value_after d n = elim (Bool-cases (is_value old (get (lit "parent") d))) [
    | inl e ↦ rw e (is_text-str old new n)
    | inr e ↦ rw e e
  ]

  is_empty-append : {A : Type 0} (xs ys : List A) → is_empty (xs ++ ys) ≡ is_empty xs && is_empty ys
  is_empty-append [] ys = refl
  is_empty-append (x ∷ xs) ys = refl

  -- The renamed document refers to the old name nowhere, if the new one is another, and has labels
  -- exactly if the first one referred to it; the new name is in the places of the old one, and every
  -- other key has the value that it had.
  pub rename_refs-RefsRenamed : (d : Fields) → RefsRenamed d (rename_refs old new d)
  unfolding rename_refs refers ◌==◌
  rename_refs-RefsRenamed d =
      let d1 = (rename_parent old new d).0 in
      let step2 = rename_list-Renamed (lit "children") d1 in
      let d2 = (rename_list old new (lit "children") d1).0 in
      let step3 = rename_list-Renamed (lit "subtasks") d2 in
      let d3 = (rename_list old new (lit "subtasks") d2).0 in
      let children1 : list_of (lit "children") d1 ≡ list_of (lit "children") d =
        ap list_or_nil (rename_parent-others d (lit "children") refl) in
      let subtasks2 : list_of (lit "subtasks") d2 ≡ list_of (lit "subtasks") d =
        ap list_or_nil
          (step2.others (lit "subtasks") refl ∙ rename_parent-others d (lit "subtasks") refl) in
      let children3 : list_of (lit "children") d3
          ≡ rename_items old new (list_of (lit "children") d) =
        ap list_or_nil (step3.others (lit "children") refl)
        ∙ (step2.items ∙ ap (rename_items old new) children1) in
      let subtasks3 : list_of (lit "subtasks") d3
          ≡ rename_items old new (list_of (lit "subtasks") d) =
        step3.items ∙ ap (rename_items old new) subtasks2 in
      let parent3 : get (lit "parent") d3 ≡ parent_after d =
        step3.others (lit "parent") refl
        ∙ (step2.others (lit "parent") refl ∙ rename_parent-parent d) in
      record {
        no_reference = λ n. none_of d3 parent3 children3 subtasks3 n;
        labelled =
            labels_of (is_value old (get (lit "parent") d)) (lists old (list_of (lit "children") d))
              (lists old (list_of (lit "subtasks") d)) (rename_parent old new d).1
              (rename_list old new (lit "children") d1).1
              (rename_list old new (lit "subtasks") d2).1 (rename_parent-labelled d)
              (step2.labelled ∙ ap (λ (x : Items). not (lists old x)) children1)
              (step3.labelled ∙ ap (λ (x : Items). not (lists old x)) subtasks2);
        parent = parent3;
        children = children3;
        subtasks = subtasks3;
        others = λ k a b c. step3.others k c ∙ (step2.others k b ∙ rename_parent-others d k a);
      }
    where
      none_of :
          (e : Fields)
          → get (lit "parent") e ≡ parent_after d
          → list_of (lit "children") e ≡ rename_items old new (list_of (lit "children") d)
          → list_of (lit "subtasks") e ≡ rename_items old new (list_of (lit "subtasks") d)
          → old ≢ new
          → refers old e ≡ false
      none_of e p c s n =
          rw
            (
              p,
              c,
              s,
              is_value_after d n,
              lists-rename_items old new (list_of (lit "children") d) n,
              lists-rename_items old new (list_of (lit "subtasks") d) n,
            )
            refl

      labels_of :
          (x y z : Bool) (a b c : List Text)
          → is_empty a ≡ not x
          → is_empty b ≡ not y
          → is_empty c ≡ not z
          → is_empty (a ++ (b ++ c)) ≡ not (x || (y || z))
      labels_of x y z a b c p q r =
          rw (is_empty-append a (b ++ c), is_empty-append b c, p, q, r) (not-or x y z)
