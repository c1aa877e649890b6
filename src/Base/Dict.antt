-- ===== src/Base/Dict.antt =====
-- Python's `dict` with string keys, in insertion order: a write to a present key keeps its place.
use Prim.Native.String.{String}
use mathlib.Core.Path.{◌≡◌, refl}
use mathlib.Core.Bool.{Bool, true}
use mathlib.Core.List.{List, [], ◌∷◌}
use mathlib.Core.Option.{Option, none, some}
use native.Mathlib.Omega.{arith}
use text.Mathlib.Text.{◌==◌}
use text.Mathlib.TextEquality.{eq_iff}
use text.Mathlib.TextPositions.{eq_refl}
use faryo_codex_web_ui.Base.Tests.{if◌then◌else◌, Bool-cases}
use mathlib.Core.Logic.{inl, inr}

abbrev pub Dict {ℓ} : Type ℓ → Type ℓ
Dict V = List (String × V)

module _ {ℓ} {V : Type ℓ} where
  -- `d.get(k)`
  unfoldable pub get : String → Dict V → Option V
  get k [] = none
  get k ((j, v) ∷ d) = if j == k then some v else get k d

  -- `d[k] = v`
  unfoldable pub put : String → V → Dict V → Dict V
  put k v [] = (k, v) ∷ []
  put k v ((j, w) ∷ d) = if j == k then (j, v) ∷ d else (j, w) ∷ put k v d

  -- `d.pop(k, None)`
  unfoldable pub del : String → Dict V → Dict V
  del k [] = []
  del k ((j, v) ∷ d) = if j == k then del k d else (j, v) ∷ del k d

  -- Drops the entries that fail a test of their value.
  unfoldable pub retain : (V → Bool) → Dict V → Dict V
  retain p [] = []
  retain p ((j, v) ∷ d) = if p v then (j, v) ∷ retain p d else retain p d

  pub get-put :
      (k j : String) (v : V) (d : Dict V) → get j (put k v d) ≡ (if k == j then some v else get j d)
  unfolding get put
  get-put k j v [] = refl
  get-put k j v ((i, w) ∷ d) = ground (arith, eq_iff k j, eq_iff i k, eq_iff i j, get-put k j v d)

  pub get-del : (k j : String) (d : Dict V) → get j (del k d) ≡ (if k == j then none else get j d)
  unfolding get del
  get-del k j [] = ground arith
  get-del k j ((i, w) ∷ d) = ground (arith, eq_iff k j, eq_iff i k, eq_iff i j, get-del k j d)

  pub get-put_self : (k : String) (v : V) (d : Dict V) → get k (put k v d) ≡ some v
  get-put_self k v d = simp (get-put, eq_refl)

  pub get-del_self : (k : String) (d : Dict V) → get k (del k d) ≡ none
  get-del_self k d = simp (get-del, eq_refl)

  -- No key stands twice.
  abbrev pub Once : Dict V → Type ℓ
  Once [] = Unit
  Once ((k, v) ∷ d) = (get k d ≡ none) × Once d

  pub put-Once : (k : String) (v : V) (d : Dict V) → Once d → Once (put k v d)
  unfolding put get
  put-Once k v [] h = (refl, tt)
  put-Once k v ((j, w) ∷ d) h = elim (Bool-cases (j == k)) [
    | inl here ↦ rw here h
    | inr there ↦
        rw there (ground (arith, get-put k j v d, eq_iff k j, eq_iff j k, h.0), put-Once k v d h.1)
  ]

  pub del-Once : (k : String) (d : Dict V) → Once d → Once (del k d)
  unfolding del
  del-Once k [] h = tt
  del-Once k ((j, w) ∷ d) h = elim (Bool-cases (j == k)) [
    | inl here ↦ rw here (del-Once k d h.1)
    | inr there ↦ rw there (ground (arith, get-del k j d, h.0), del-Once k d h.1)
  ]

  -- An entry that passes the test stays.
  pub get-retain :
      (p : V → Bool) (k : String) (v : V) (d : Dict V)
      → p v ≡ true
      → get k d ≡ some v
      → get k (retain p d) ≡ some v
  unfolding get retain
  get-retain p k v [] t h = h
  get-retain p k v ((j, w) ∷ d) t h = ground (arith, get-retain p k v d t)

pub ruleset dict_laws = (get-put, get-del, eq_refl)
