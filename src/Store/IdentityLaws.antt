-- ===== src/Store/IdentityLaws.antt =====
-- .trellis/scripts/common/task_store.py: the identity fields of a renamed task.
use taihu.Base.{
  ◌≡◌, refl, ap, ◌∙◌, arith, Bool, true, false, not, ◌&&◌, ◌||◌, Bool-cases, inl, inr, Option, none,
  some, List, [], ◌∷◌, if◌then◌else◌, Text, lit, ◌==◌, ==_iff, is_empty,
}
use taihu.Json.{
  Json, null, flag, int, float, str, arr, obj, Fields, get, assign, get-assign, or_default,
}
use taihu.Tasks.Queue.{is_text}
use taihu.Store.Renaming.{changed_fields, with_identity, rename_identity_fields}

-- The key is one of the keys.
unfoldable named : Text → List Text → Bool
named k [] = false
named k (key ∷ keys) = (key == k) || named k keys

get-with_identity :
    (slug k : Text) (keys : List Text) (d : Fields)
    → get k (with_identity slug keys d) ≡ (if named k keys then some (str slug) else get k d)
unfolding with_identity named
get-with_identity slug k [] d = refl
get-with_identity slug k (key ∷ keys) d =
    rw (get-with_identity slug k keys (assign key (str slug) d), get-assign key k (str slug) d)
      (ground arith)

is_text_iff : (s : Text) (v : Json) → is_text s v ≡ true → v ≡ str s
is_text_iff s (str t) h = ground (arith, ==_iff t s, ==_iff s t)
is_text_iff s null h = let c : false ≡ true = h in cc
is_text_iff s (flag b) h = let c : false ≡ true = h in cc
is_text_iff s (int n) h = let c : false ≡ true = h in cc
is_text_iff s (float n) h = let c : false ≡ true = h in cc
is_text_iff s (arr items) h = let c : false ≡ true = h in cc
is_text_iff s (obj d) h = let c : false ≡ true = h in cc

-- The field has the slug already.
abbrev has_slug : Text → Fields → Text → Bool
has_slug slug d k = is_text slug (or_default null (get k d))

has_slug-get :
    (slug : Text) (o : Option Json) → is_text slug (or_default null o) ≡ true → o ≡ some (str slug)
has_slug-get slug none h = let c : false ≡ true = h in cc
has_slug-get slug (some v) h = ap some (is_text_iff slug v h)

named-changed_fields :
    (slug k : Text) (d : Fields) (keys : List Text)
    → named k (changed_fields slug d keys) ≡ (named k keys && not (has_slug slug d k))
unfolding changed_fields named
named-changed_fields slug k d [] = refl
named-changed_fields slug k d (key ∷ keys) = elim (Bool-cases (key == k)) [
  | inl e ↦
      let same : key ≡ k = (==_iff key k).0 e in
      let rest = named-changed_fields slug k d keys in
      rw same (elim (Bool-cases (has_slug slug d k)) [
        | inl f ↦ rw f (rw (named-changed_fields slug k d keys, f) (ground arith))
        | inr f ↦ rw (f, (==_iff k k).1 refl) refl
      ])
  | inr e ↦ elim (Bool-cases (has_slug slug d key)) [
    | inl f ↦ rw (f, e) (named-changed_fields slug k d keys)
    | inr f ↦ rw (f, e) (named-changed_fields slug k d keys)
  ]
]

-- The document with the slug in its identity fields: those have it, and every other field is as it was.
pub record Identified (slug : Text) (d e : Fields) : Type 0 where
  pub id : get (lit "id") e ≡ some (str slug)
  pub name : get (lit "name") e ≡ some (str slug)
  pub others : (k : Text) → (lit "id" == k) ≡ false → (lit "name" == k) ≡ false → get k e ≡ get k d

get_identified :
    (slug k : Text) (d : Fields)
    → get k (with_identity slug (changed_fields slug d rename_identity_fields) d) ≡ (
        if named k rename_identity_fields && not (has_slug slug d k)
        then some (str slug)
        else get k d)
get_identified slug k d =
    rw
      (
        get-with_identity slug k (changed_fields slug d rename_identity_fields) d,
        named-changed_fields slug k d rename_identity_fields,
      )
      refl

identity_field :
    (slug k : Text) (d : Fields)
    → named k rename_identity_fields ≡ true
    → get k (with_identity slug (changed_fields slug d rename_identity_fields) d) ≡ some (str slug)
identity_field slug k d n = elim (Bool-cases (has_slug slug d k)) [
  | inl f ↦ rw (get_identified slug k d, n, f) (has_slug-get slug (get k d) f)
  | inr f ↦ rw (get_identified slug k d, n, f) refl
]

pub with_identity-Identified :
    (slug : Text) (d : Fields)
    → Identified slug d (with_identity slug (changed_fields slug d rename_identity_fields) d)
unfolding named ◌==◌
with_identity-Identified slug d = record {
  id = identity_field slug (lit "id") d refl;
  name = identity_field slug (lit "name") d refl;
  others = λ k a b. get_identified slug k d ∙ rw (a, b) refl;
}

-- Where no field has to change, the document has the slug already.
pub no_change-Identified :
    (slug : Text) (d : Fields)
    → is_empty (changed_fields slug d rename_identity_fields) ≡ true
    → with_identity slug (changed_fields slug d rename_identity_fields) d ≡ d
unfolding with_identity
no_change-Identified slug d h = nothing (changed_fields slug d rename_identity_fields) h
  where
    nothing : (keys : List Text) → is_empty keys ≡ true → with_identity slug keys d ≡ d
    nothing [] e = refl
    nothing (key ∷ keys) e = let c : false ≡ true = e in cc
