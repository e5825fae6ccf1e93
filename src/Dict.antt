-- ===== src/Dict.antt =====
-- A Go map with string keys, as an association list. Its range order is the list's; the program's
-- results are read through `get`. Clients use the laws below.
use ssh_roundrobin.Prelude.{
  ◌≡◌, refl, ◌∙◌, Bool, true, false, ◌||◌, Option, none, some, List, [], ◌∷◌, arith, if◌then◌else◌,
}
use ssh_roundrobin.Text.{Text, text_eq, text_eq_iff}

pub record Dict {ℓ} (V : Type ℓ) : Type ℓ where
  pub entries : List (Text × V)

abbrev find {ℓ} : {V : Type ℓ} → Text → List (Text × V) → Option V
find k [] = none
find k ((j, v) ∷ m) = if text_eq j k then some v else find k m

abbrev without {ℓ} : {V : Type ℓ} → Text → List (Text × V) → List (Text × V)
without k [] = []
without k ((j, v) ∷ m) = let rest = without k m in if text_eq j k then rest else (j, v) ∷ rest

abbrev drop_where {ℓ} : {V : Type ℓ} → (V → Bool) → List (Text × V) → List (Text × V)
drop_where p [] = []
drop_where p ((j, v) ∷ m) =
    let rest = drop_where p m in if p v then without j rest else (j, v) ∷ rest

module _ {ℓ} {V : Type ℓ} where
  unfoldable pub empty : Dict V
  empty = record { entries = [] }

  -- `v, ok := m[k]`.
  unfoldable pub get : Dict V → Text → Option V
  get m k = find k m.entries

  -- `delete(m, k)`.
  unfoldable pub delete : Dict V → Text → Dict V
  delete m k = record { entries = without k m.entries }

  -- `m[k] = v`.
  unfoldable pub put : Dict V → Text → V → Dict V
  put m k v = record { entries = (k, v) ∷ without k m.entries }

  find-without :
      (k j : Text) (m : List (Text × V))
      → find j (without k m) ≡ (if text_eq k j then none else find j m)
  find-without k j [] = ground arith
  find-without k j ((i, v) ∷ m) =
      ground (arith, find-without k j m, text_eq_iff i k, text_eq_iff i j, text_eq_iff k j)

  pub get-empty : (k : Text) → get empty k ≡ none
  unfolding get empty
  get-empty k = refl

  pub get-delete :
      (m : Dict V) (k j : Text) → get (delete m k) j ≡ (if text_eq k j then none else get m j)
  unfolding get delete
  get-delete m k j = find-without k j m.entries

  pub get-put :
      (m : Dict V) (k : Text) (v : V) (j : Text)
      → get (put m k v) j ≡ (if text_eq k j then some v else get m j)
  unfolding get put
  get-put m k v j = ground (arith, find-without k j m.entries)

  -- `for k, v := range m { if p(v) { delete(m, k) } }`; a key stands once in a Go map.
  unfoldable pub delete_where : Dict V → (V → Bool) → Dict V
  delete_where m p = record { entries = drop_where p m.entries }

  abbrev pub unless : (V → Bool) → Option V → Option V
  unless p none = none
  unless p (some v) = if p v then none else some v

  find-drop_where :
      (p : V → Bool) (k : Text) (m : List (Text × V))
      → find k (drop_where p m) ≡ unless p (find k m)
  find-drop_where p k [] = refl
  find-drop_where p k ((j, v) ∷ m) =
      ground (arith, find-drop_where p k m, text_eq_iff j k, find-without j k (drop_where p m))

  pub get-delete_where :
      (m : Dict V) (p : V → Bool) (k : Text) → get (delete_where m p) k ≡ unless p (get m k)
  unfolding get delete_where
  get-delete_where m p k = find-drop_where p k m.entries

-- `for k, v := range m { if p(v) { r[k] = f(v) } }` for a new map `r`.
abbrev collected {ℓ κ} :
    {V : Type ℓ} {U : Type κ} → (V → Bool) → (V → U) → List (Text × V) → List (Text × U)
collected p f [] = []
collected p f ((k, v) ∷ m) =
    let rest = without k (collected p f m) in if p v then (k, f v) ∷ rest else rest

unfoldable pub collect {ℓ κ} : {V : Type ℓ} {U : Type κ} → (V → Bool) → (V → U) → Dict V → Dict U
collect p f m = record { entries = collected p f m.entries }

abbrev pub kept {ℓ κ} : {V : Type ℓ} {U : Type κ} → (V → Bool) → (V → U) → Option V → Option U
kept p f none = none
kept p f (some v) = if p v then some (f v) else none

find-collected :
    {V U : Type 0} (p : V → Bool) (f : V → U) (k : Text) (m : List (Text × V))
    → find k (collected p f m) ≡ kept p f (find k m)
find-collected p f k [] = refl
find-collected p f k ((j, v) ∷ m) =
    ground (arith, find-collected p f k m, text_eq_iff j k, find-without j k (collected p f m))

pub get-collect :
    {V U : Type 0} (p : V → Bool) (f : V → U) (m : Dict V) (k : Text)
    → get (collect p f m) k ≡ kept p f (get m k)
unfolding get collect
get-collect p f m k = find-collected p f k m.entries

-- `for k, v := range new { m[k] = v }`
abbrev put_each {ℓ} : {V : Type ℓ} → Dict V → List (Text × V) → Dict V
put_each m [] = m
put_each m ((k, v) ∷ new) = put (put_each m new) k v

unfoldable pub put_all {ℓ} : {V : Type ℓ} → Dict V → Dict V → Dict V
put_all m new = put_each m new.entries

abbrev pub or_else {ℓ} : {V : Type ℓ} → Option V → Option V → Option V
or_else (some v) o = some v
or_else none o = o

pub or_else-none {ℓ} : {V : Type ℓ} (o : Option V) → or_else o none ≡ o
or_else-none none = refl
or_else-none (some v) = refl

get-put_each :
    {V : Type 0} (m : Dict V) (k : Text) (new : List (Text × V))
    → get (put_each m new) k ≡ or_else (find k new) (get m k)
get-put_each m k [] = refl
get-put_each m k ((j, v) ∷ new) =
    ground (arith, get-put_each m k new, get-put (put_each m new) j v k)

pub get-put_all :
    {V : Type 0} (m new : Dict V) (k : Text) → get (put_all m new) k ≡ or_else (get new k) (get m k)
unfolding put_all
get-put_all m new k = get-put_each m k new.entries ∙ unfold get in refl

-- The keys of a map, for a range that appends them to a list.
abbrev names {ℓ} : {V : Type ℓ} → List (Text × V) → List Text
names [] = []
names ((k, v) ∷ m) = k ∷ names m

unfoldable pub keys {ℓ} : {V : Type ℓ} → Dict V → List Text
keys m = names m.entries

abbrev pub has_text : Text → List Text → Bool
has_text k [] = false
has_text k (j ∷ js) = text_eq j k || has_text k js

abbrev pub is_some {ℓ} : {V : Type ℓ} → Option V → Bool
is_some none = false
is_some (some v) = true

has_text-names :
    {V : Type 0} (k : Text) (m : List (Text × V)) → has_text k (names m) ≡ is_some (find k m)
has_text-names k [] = refl
has_text-names k ((j, v) ∷ m) = ground (arith, has_text-names k m)

pub has_text-keys : {V : Type 0} (m : Dict V) (k : Text) → has_text k (keys m) ≡ is_some (get m k)
unfolding get keys
has_text-keys m k = has_text-names k m.entries

pub ruleset dict_laws = (get-empty, get-delete, get-put, get-delete_where, get-collect, get-put_all)
