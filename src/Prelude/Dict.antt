-- ===== src/Prelude/Dict.antt =====
-- Python's `dict` with text keys, as an association list in order of insertion.
use mathlib.Core.Path.{◌≡◌, refl}
use mathlib.Core.Bool.{Bool}
use mathlib.Core.List.{List, [], ◌∷◌}
use mathlib.Core.Option.{Option, none, some}
use Prim.Native.String.{String}
use native.Mathlib.Omega.{arith}
use text.Mathlib.Text.{◌==◌}
use text.Mathlib.TextEquality.{eq_iff}
use antminer_chip_tuner.Prelude.Tests.{if◌then◌else◌}

abbrev pub Dict {ℓ} : Type ℓ → Type ℓ
Dict V = List (String × V)

module _ {ℓ} {V : Type ℓ} where
  -- d.get(k)
  unfoldable pub get : String → Dict V → Option V
  get k [] = none
  get k ((j, v) ∷ d) = if j == k then some v else get k d

  -- d[k] = v: a key that is there keeps its place.
  unfoldable pub put : String → V → Dict V → Dict V
  put k v [] = (k, v) ∷ []
  put k v ((j, w) ∷ d) = if j == k then (j, v) ∷ d else (j, w) ∷ put k v d

  -- d.pop(k, None)
  unfoldable pub pop : String → Dict V → Dict V
  pop k [] = []
  pop k ((j, w) ∷ d) = let rest = pop k d in if j == k then rest else (j, w) ∷ rest

  -- The items whose key and value pass a test.
  unfoldable pub keep : (String → V → Bool) → Dict V → Dict V
  keep p [] = []
  keep p ((j, w) ∷ d) = let rest = keep p d in if p j w then (j, w) ∷ rest else rest

  pub get-put :
      (k j : String) (v : V) (d : Dict V) → get j (put k v d) ≡ (if k == j then some v else get j d)
  unfolding get put
  get-put k j v [] = refl
  get-put k j v ((i, w) ∷ d) = ground (arith, eq_iff k j, eq_iff i k, eq_iff i j, get-put k j v d)

  pub get-pop : (k j : String) (d : Dict V) → get j (pop k d) ≡ (if k == j then none else get j d)
  unfolding get pop
  get-pop k j [] = ground arith
  get-pop k j ((i, w) ∷ d) = ground (arith, get-pop k j d, eq_iff i k, eq_iff i j, eq_iff k j)

  -- Every key stands once, as in a Python dict.
  abbrev pub IsDict : Dict V → Type ℓ
  IsDict [] = Unit
  IsDict ((j, w) ∷ d) = (get j d ≡ none) × IsDict d

  pub put-IsDict : (k : String) (v : V) (d : Dict V) → IsDict d → IsDict (put k v d)
  unfolding put
  put-IsDict k v [] h = (unfold get in refl, tt)
  put-IsDict k v ((j, w) ∷ d) h =
      ground (arith, put-IsDict k v d, get-put k j v d, eq_iff j k, eq_iff k j)

  pub pop-IsDict : (k : String) (d : Dict V) → IsDict d → IsDict (pop k d)
  unfolding pop
  pop-IsDict k [] h = tt
  pop-IsDict k ((j, w) ∷ d) h = ground (arith, pop-IsDict k d, get-pop k j d)

  -- What is left of an entry under `keep`.
  abbrev pub keep_entry : (String → V → Bool) → String → Option V → Option V
  keep_entry p k none = none
  keep_entry p k (some v) = if p k v then some v else none

  pub get-keep :
      (p : String → V → Bool) (k : String) (d : Dict V)
      → IsDict d
      → get k (keep p d) ≡ keep_entry p k (get k d)
  unfolding get keep
  get-keep p k [] h = refl
  get-keep p k ((j, w) ∷ d) h = ground (arith, get-keep p k d, eq_iff j k)

  pub keep-IsDict : (p : String → V → Bool) (d : Dict V) → IsDict d → IsDict (keep p d)
  unfolding keep
  keep-IsDict p [] h = tt
  keep-IsDict p ((j, w) ∷ d) h = ground (arith, keep-IsDict p d, get-keep p j d)
